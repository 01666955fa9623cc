-- ===== src/Services/Arguments.antt =====
-- The checks of the actions' arguments (services.py: _domain, _host_name).
pub mod Laws
use Prim.Native.Char.{Char, code}
use Prim.Native.String.{[], ◌∷◌}
use ha_sophos_fw.Prelude.{
  ℕ, zero, suc, ◌+◌, ◌-◌, ◌*◌, ◌/◌, ◌%◌, ◌≤◌, ◌<◌, String, ◌≡◌, refl, sym, ap, ◌∙◌, ◌≢◌, ◌↔◌, ◌⊎◌,
  inl, inr, Bool, true, false, not, ◌&&◌, ◌||◌, Option, none, some, List, ◌++◌, map, arith, ◌==◌,
  eq_iff, eq_refl, ltb, leb, eqb, if◌then◌else◌, leb→le, ltb→lt, eqb_iff, Bool-cases, Option-cases,
  or_else, is_some, get_or, ne→false, length, is_nil, keep_if, any_of, all_of, first_where, All,
  contains, Distinct,
}
use ha_sophos_fw.Text
use ha_sophos_fw.Text.{strip, lower, drop_prefix}

unfoldable pub is_alnum : Char → Bool
is_alnum c =
    (leb b'0' (code c) && leb (code c) b'9')
    || (leb b'A' (code c) && leb (code c) b'Z')
    || (leb b'a' (code c) && leb (code c) b'z')

-- A scan of labels: at a label's start, after an alphanumeric character of it, or after a hyphen; the
-- flag tells whether a dot was read.
pub data Scan : Type 0 where
  at_start after_alnum after_hyphen : Bool → Scan
  bad : Scan

abbrev inside : Bool → Char → Scan
inside dots c =
    if is_alnum c then after_alnum dots else if eqb (code c) b'-' then after_hyphen dots else bad

unfoldable pub scan_step : Scan → Char → Scan
unfolding is_alnum
scan_step bad c = bad
scan_step (at_start dots) c = if is_alnum c then after_alnum dots else bad
scan_step (after_hyphen dots) c = inside dots c
scan_step (after_alnum dots) c = if eqb (code c) b'.' then at_start true else inside dots c

abbrev is_done : Scan → Bool
is_done (after_alnum dots) = dots
is_done s = false

unfoldable pub scan : Scan → String → Bool
unfolding scan_step
scan s [] = is_done s
scan s (c ∷ t) = scan (scan_step s c) t

-- Labels of letters, digits and hyphens, two at least, at most 250 characters.
unfoldable pub is_domain : String → Bool
unfolding scan
is_domain s = leb (Text.length s) 250 && scan (at_start false) s

abbrev is_empty : String → Bool
is_empty [] = true
is_empty (c ∷ s) = false

-- `$` also matches before a newline at the end.
unfoldable pub drop_newline : String → String
drop_newline [] = []
drop_newline (c ∷ s) =
    let rest = drop_newline s in if is_empty s && eqb (code c) 10 then [] else c ∷ rest

-- `_DOMAIN_RE.match`
unfoldable pub matches_domain : String → Bool
unfolding is_domain drop_newline
matches_domain s = is_domain (drop_newline s)

drop_scheme : String → Option String → Option String → String
drop_scheme s (some rest) o = rest
drop_scheme s none (some rest) = rest
drop_scheme s none none = s

-- The text before the first "/", "?" or "#".
until_path : String → String
until_path [] = []
until_path (c ∷ s) =
    let rest = until_path s in
    if eqb (code c) b'/' || eqb (code c) b'?' || eqb (code c) b'#' then [] else c ∷ rest

-- `s.rstrip(".")`
rstrip_dots : String → String
rstrip_dots [] = []
rstrip_dots (c ∷ s) =
    let rest = rstrip_dots s in if is_empty rest && eqb (code c) b'.' then [] else c ∷ rest

site_of : String → String
unfolding drop_scheme until_path rstrip_dots
site_of s =
    rstrip_dots (until_path (drop_scheme s (drop_prefix "http://" s) (drop_prefix "https://" s)))

-- `_domain`: none stands for vol.Invalid.
unfoldable pub domain : String → Option String
unfolding site_of matches_domain
domain value = let s = site_of (lower (strip value)) in if matches_domain s then some s else none

-- A character that a host name may not have, at its start or elsewhere.
bad_in_name : Bool → Char → Bool
bad_in_name first c = eqb (code c) b',' || ltb (code c) 32 || (first && eqb (code c) b'#')

name_from : Bool → String → Bool
unfolding bad_in_name
name_from first [] = not first
name_from first (c ∷ s) = not (bad_in_name first c) && name_from false s

-- `_host_name`
unfoldable pub host_name : String → Option String
unfolding name_from
host_name value =
    let s = strip value in if leb (Text.length s) 50 && name_from true s then some s else none
