-- ===== src/Text/Lower.antt =====
-- Lower case and stripping: the normal form in which addresses are compared.
use Prim.Native.Char.{Char, code}
use Prim.Native.String.{[], ◌∷◌}
use ha_sophos_fw.Prelude.{
  ℕ, suc, ◌-◌, ◌<◌, String, ◌≡◌, refl, sym, ap, ◌∙◌, inl, inr, Bool, true, false, ◌&&◌, arith, leb,
  Bool-cases,
}
use ha_sophos_fw.Text.{is_space, lstrip, rstrip, strip, nth, lower_char, lower, is_empty}
use ha_sophos_fw.Text.Laws.{strip_idem}

all_chars : (Char → Bool) → String → Bool
all_chars p [] = true
all_chars p (c ∷ s) = p c && all_chars p s

len : String → ℕ
len [] = 0
len (c ∷ s) = suc (len s)

nth_holds :
    (p : Char → Bool) (n : ℕ) (s : String) (d : Char)
    → all_chars p s ≡ true
    → n < len s
    → p (nth n s d) ≡ true
unfolding all_chars len nth
nth_holds p n [] d h lt = absurd (omega arith)
nth_holds p n (c ∷ s) d h lt = ground (arith, nth_holds p (n - 1) s d)

abbrev pub is_upper : Char → Bool
is_upper c = leb b'A' (code c) && leb (code c) b'Z'

unfoldable pub is_low : Char → Bool
is_low c = leb b'a' (code c) && leb (code c) b'z'

low_alphabet : all_chars is_low "abcdefghijklmnopqrstuvwxyz" ≡ true
unfolding all_chars is_low
low_alphabet = refl

pub lower_char_upper : (c : Char) → is_upper c ≡ true → is_low (lower_char c) ≡ true
unfolding lower_char
lower_char_upper c h = rw h (
    nth_holds is_low (code c - b'A') "abcdefghijklmnopqrstuvwxyz" c low_alphabet
      (unfold len in ground arith))

pub lower_char_other : (c : Char) → is_upper c ≡ false → lower_char c ≡ c
unfolding lower_char
lower_char_other c h = rw h

low_not_upper : (c : Char) → is_low c ≡ true → is_upper c ≡ false
unfolding is_low
low_not_upper c h = ground arith

lower_char_idem : (c : Char) → lower_char (lower_char c) ≡ lower_char c
lower_char_idem c = elim (Bool-cases (is_upper c)) [
  | inl up ↦ lower_char_other _ (low_not_upper _ (lower_char_upper c up))
  | inr low ↦ ap lower_char (lower_char_other c low)
]

low_not_space : (c : Char) → is_low c ≡ true → is_space c ≡ false
unfolding is_low is_space
low_not_space c h = ground arith

upper_not_space : (c : Char) → is_upper c ≡ true → is_space c ≡ false
unfolding is_space
upper_not_space c h = ground arith

is_space-lower_char : (c : Char) → is_space (lower_char c) ≡ is_space c
is_space-lower_char c = elim (Bool-cases (is_upper c)) [
  | inl up ↦ low_not_space _ (lower_char_upper c up) ∙ sym (upper_not_space c up)
  | inr low ↦ ap is_space (lower_char_other c low)
]

pub lower_idem : (s : String) → lower (lower s) ≡ lower s
unfolding lower
lower_idem [] = refl
lower_idem (c ∷ s) = λ i. lower_char_idem c i ∷ lower_idem s i

is_empty-lower : (s : String) → is_empty (lower s) ≡ is_empty s
unfolding lower
is_empty-lower [] = refl
is_empty-lower (c ∷ s) = refl

lstrip-lower : (s : String) → lstrip (lower s) ≡ lower (lstrip s)
unfolding lstrip lower
lstrip-lower [] = refl
lstrip-lower (c ∷ s) = ground (arith, is_space-lower_char c, lstrip-lower s)

rstrip-lower : (s : String) → rstrip (lower s) ≡ lower (rstrip s)
unfolding rstrip lower
rstrip-lower [] = refl
rstrip-lower (c ∷ s) =
    ground (arith, is_space-lower_char c, rstrip-lower s, is_empty-lower (rstrip s))

pub strip-lower : (s : String) → strip (lower s) ≡ lower (strip s)
unfolding strip
strip-lower s = ap rstrip (lstrip-lower s) ∙ rstrip-lower (lstrip s)

-- The normal form of an address is its own normal form.
pub lower-strip_idem : (s : String) → lower (strip (lower (strip s))) ≡ lower (strip s)
lower-strip_idem s =
    ap lower (strip-lower (strip s) ∙ ap lower (strip_idem s)) ∙ lower_idem (strip s)
