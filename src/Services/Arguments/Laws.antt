-- ===== src/Services/Arguments/Laws.antt =====
-- What the check of a domain lets through to the client.
use Prim.Native.Char.{Char}
use Prim.Native.String.{[], ◌∷◌}
use ha_sophos_fw.Prelude.{
  suc, String, ◌≡◌, refl, ap, ◌∙◌, ◌≢◌, ◌⊎◌, inl, inr, true, false, some, arith, Bool-cases,
}
use ha_sophos_fw.Text
use ha_sophos_fw.Text.{is_space, lstrip, rstrip, strip, lower, lower_char}
use ha_sophos_fw.Text.Lower.{is_upper, is_low, lower_char_upper, lower_char_other}
use ha_sophos_fw.Services.Arguments.{
  is_alnum, Scan, scan_step, scan, is_domain, drop_newline, matches_domain, domain, bad, at_start,
  after_alnum, after_hyphen,
}

AllBlack : String → Type 0
AllBlack [] = Unit
AllBlack (c ∷ s) = (is_space c ≡ false) × AllBlack s

bad_stays : (t : String) → scan bad t ≡ false
unfolding scan scan_step
bad_stays [] = refl
bad_stays (c ∷ t) = bad_stays t

step_black : (s : Scan) (c : Char) → (scan_step s c ≡ bad) ⊎ (is_space c ≡ false)
unfolding scan_step is_alnum is_space
step_black bad c = inl refl
step_black (at_start dots) c = ground arith
step_black (after_alnum dots) c = ground arith
step_black (after_hyphen dots) c = ground arith

scan-AllBlack : (s : Scan) (t : String) → scan s t ≡ true → AllBlack t
unfolding scan AllBlack
scan-AllBlack s [] h = tt
scan-AllBlack s (c ∷ t) h = elim (step_black s c) [
  | inl e ↦ absurd (ground (arith, e, bad_stays t, h))
  | inr e ↦ (e, scan-AllBlack (scan_step s c) t h)
]

rstrip_black : (s : String) → AllBlack (drop_newline s) → rstrip s ≡ drop_newline s
unfolding rstrip drop_newline is_space AllBlack
rstrip_black [] h = refl
rstrip_black (c ∷ []) h = ground arith
rstrip_black (c ∷ d ∷ s) (e, h) = ground (arith, e, rstrip_black (d ∷ s) h)

-- Lowering changes no class of character that the scan tells apart.
scan_low :
    (s : Scan) (c d : Char) → is_upper c ≡ true → is_low d ≡ true → scan_step s d ≡ scan_step s c
unfolding scan_step is_alnum is_low
scan_low bad c d h k = refl
scan_low (at_start dots) c d h k = ground arith
scan_low (after_alnum dots) c d h k = ground arith
scan_low (after_hyphen dots) c d h k = ground arith

scan_step-lower_char : (s : Scan) (c : Char) → scan_step s (lower_char c) ≡ scan_step s c
scan_step-lower_char s c = elim (Bool-cases (is_upper c)) [
  | inl up ↦ scan_low s c (lower_char c) up (lower_char_upper c up)
  | inr other ↦ ap (scan_step s) (lower_char_other c other)
]

scan-lower : (t : String) (s : Scan) → scan s (lower t) ≡ scan s t
unfolding scan lower
scan-lower [] s = refl
scan-lower (c ∷ t) s =
    ap (λ s'. scan s' (lower t)) (scan_step-lower_char s c) ∙ scan-lower t (scan_step s c)

length-lower : (t : String) → Text.length (lower t) ≡ Text.length t
unfolding lower
length-lower [] = refl
length-lower (c ∷ t) = ap suc (length-lower t)

is_domain-lower : (t : String) → is_domain (lower t) ≡ is_domain t
unfolding is_domain
is_domain-lower t = rw (length-lower t, scan-lower t (at_start false)) refl

lstrip_black : (s : String) → AllBlack (drop_newline s) → drop_newline s ≢ "" → lstrip s ≡ s
unfolding lstrip drop_newline AllBlack
lstrip_black [] h ne = refl
lstrip_black (c ∷ []) h ne = ground (arith, h, ne)
lstrip_black (c ∷ d ∷ s) (e, h) ne = ground (arith, e)

cons_not_empty : (c : Char) (t : String) → c ∷ t ≢ ""
cons_not_empty c t e = ground (arith, ap Text.length e)

scan_not_empty : (t : String) → is_domain t ≡ true → t ≢ ""
unfolding is_domain scan
scan_not_empty [] h = absurd (ground (arith, h))
scan_not_empty (c ∷ t) h = cons_not_empty c t

strip_domain : (t : String) → is_domain (drop_newline t) ≡ true → strip t ≡ drop_newline t
unfolding strip is_domain
strip_domain t h =
    let black = scan-AllBlack (at_start false) (drop_newline t) (ground (arith, h)) in
    ap rstrip (lstrip_black t black (scan_not_empty _ h)) ∙ rstrip_black t black

matched : (t : String) → is_domain (drop_newline t) ≡ true → is_domain (lower (strip t)) ≡ true
matched t h = is_domain-lower (strip t) ∙ ap is_domain (strip_domain t h) ∙ h

-- What the check of a site lets through is a domain once it is stripped and lowered, as it is before
-- it is written: at least two labels of letters, digits and inner hyphens, of at most 250 characters.
-- The check itself may leave a newline at the end.
pub is_domain-domain :
    (value d : String) → domain value ≡ some d → is_domain (lower (strip d)) ≡ true
unfolding domain matches_domain
is_domain-domain value d h = ground (arith, matched d)
