-- ===== src/Text.antt =====
-- The methods of Python's `str` that custom_components/sophos_firewall calls on the firewall's
-- answers: strip, lower, isdigit, int and `in`. `lower` and `isdigit` know the ASCII characters.
pub mod Laws
pub mod Lower
use Prim.Native.Char.{Char, code}
use Prim.Native.String.{[], ◌∷◌}
use text.Mathlib.Text.{find?}
use ha_sophos_fw.Prelude.{
  ℕ, suc, ◌+◌, ◌-◌, ◌*◌, String, Bool, true, false, ◌&&◌, ◌||◌, Option, none, some, ◌==◌, leb, eqb,
  is_some, if◌then◌else◌,
}

-- The characters that `strip` removes: Unicode white space.
unfoldable pub is_space : Char → Bool
is_space c =
    (leb 9 (code c) && leb (code c) 13)
    || (leb 28 (code c) && leb (code c) 32)
    || eqb (code c) 133
    || eqb (code c) 160
    || eqb (code c) 5760
    || (leb 8192 (code c) && leb (code c) 8202)
    || eqb (code c) 8232
    || eqb (code c) 8233
    || eqb (code c) 8239
    || eqb (code c) 8287
    || eqb (code c) 12288

unfoldable pub lstrip : String → String
lstrip [] = []
lstrip (c ∷ s) = let rest = lstrip s in if is_space c then rest else c ∷ s

abbrev is_empty : String → Bool
is_empty [] = true
is_empty (c ∷ s) = false

unfoldable pub rstrip : String → String
rstrip [] = []
rstrip (c ∷ s) = let rest = rstrip s in if is_empty rest && is_space c then [] else c ∷ rest

-- `s.strip()`
unfoldable pub strip : String → String
unfolding lstrip rstrip is_space
strip s = rstrip (lstrip s)

nth : ℕ → String → Char → Char
nth n [] d = d
nth n (c ∷ s) d = let rest = nth (n - 1) s d in if eqb n 0 then c else rest

unfoldable pub lower_char : Char → Char
unfolding nth
lower_char c =
    if leb b'A' (code c) && leb (code c) b'Z'
    then nth (code c - b'A') "abcdefghijklmnopqrstuvwxyz" c
    else c

-- `s.lower()`
unfoldable pub lower : String → String
unfolding lower_char
lower [] = []
lower (c ∷ s) = lower_char c ∷ lower s

unfoldable pub is_digit_char : Char → Bool
is_digit_char c = leb b'0' (code c) && leb (code c) b'9'

unfoldable pub digits_only : String → Bool
unfolding is_digit_char
digits_only [] = true
digits_only (c ∷ s) = is_digit_char c && digits_only s

-- `s.isdigit()`
unfoldable pub is_digit : String → Bool
unfolding digits_only
is_digit [] = false
is_digit (c ∷ s) = digits_only (c ∷ s)

number_from : ℕ → String → ℕ
number_from n [] = n
number_from n (c ∷ s) = number_from (n * 10 + (code c - b'0')) s

-- `int(s)` of a text for which `s.isdigit()` holds.
unfoldable pub number : String → ℕ
unfolding number_from
number s = number_from 0 s

-- `len(s)`
abbrev pub length : String → ℕ
length [] = 0
length (c ∷ s) = suc (length s)

-- `s.startswith(prefix)`
abbrev pub starts_with : String → String → Bool
starts_with s [] = true
starts_with [] (d ∷ p) = false
starts_with (c ∷ s) (d ∷ p) = eqb (code c) (code d) && starts_with s p

-- `part in s`
unfoldable pub has_part : String → String → Bool
has_part part s = is_some (find? s part)

-- `value or None` after `strip`: a text with something in it.
unfoldable pub non_empty : String → Option String
non_empty s = if s == "" then none else some s

-- `s[len(prefix):]` of a text that starts with the prefix.
unfoldable pub drop_prefix : String → String → Option String
drop_prefix [] s = some s
drop_prefix (c ∷ p) [] = none
drop_prefix (c ∷ p) (d ∷ s) = if eqb (code c) (code d) then drop_prefix p s else none

-- `s + t`
abbrev pub append : String → String → String
append [] t = t
append (c ∷ s) t = c ∷ append s t
