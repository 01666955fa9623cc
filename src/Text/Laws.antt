-- ===== src/Text/Laws.antt =====
-- What stripping leaves: nothing at either end, so that stripping again changes nothing.
use Prim.Native.String.{[], ◌∷◌}
use ha_sophos_fw.Prelude.{
  String, ◌≡◌, refl, ap, true, ◌||◌, some, arith, eq_iff, Bool-cases, inl, inr, ◌≢◌, ◌∙◌,
}
use ha_sophos_fw.Text.{append, starts_with, drop_prefix, is_space, lstrip, rstrip, strip, non_empty}

rstrip_idem : (s : String) → rstrip (rstrip s) ≡ rstrip s
unfolding rstrip
rstrip_idem [] = refl
rstrip_idem (c ∷ s) = ground (arith, rstrip_idem s)

-- Cutting the end off a text that begins with no space leaves such a text.
lstrip-rstrip : (s : String) → lstrip (rstrip (lstrip s)) ≡ rstrip (lstrip s)
unfolding lstrip rstrip
lstrip-rstrip [] = refl
lstrip-rstrip (c ∷ s) = elim (Bool-cases (is_space c)) [
  | inl e ↦ rw e (lstrip-rstrip s)
  | inr e ↦ ground arith
]

pub strip_idem : (s : String) → strip (strip s) ≡ strip s
unfolding strip
strip_idem s = ap rstrip (lstrip-rstrip s) ∙ rstrip_idem (lstrip s)

pub non_empty-ne : (s t : String) → non_empty s ≡ some t → t ≢ ""
unfolding non_empty
non_empty-ne s t h = ground (arith, eq_iff s "")

pub drop_prefix-append : (p s : String) → drop_prefix p (append p s) ≡ some s
unfolding drop_prefix
drop_prefix-append [] s = refl
drop_prefix-append (c ∷ p) s = ground (arith, drop_prefix-append p s)

-- Prefixes of texts that begin alike.
pub starts_with-append : (b s p : String) → starts_with (append b s) (append b p) ≡ starts_with s p
starts_with-append [] s p = refl
starts_with-append (c ∷ b) s p = ground (arith, starts_with-append b s p)

-- Of two prefixes of one text, one is a prefix of the other.
pub starts_with_both :
    (s p q : String)
    → starts_with s p ≡ true
    → starts_with s q ≡ true
    → (starts_with p q || starts_with q p) ≡ true
starts_with_both s p [] h k = refl
starts_with_both s [] (d ∷ q) h k = refl
starts_with_both [] (c ∷ p) (d ∷ q) h k = ground (arith, h)
starts_with_both (a ∷ s) (c ∷ p) (d ∷ q) h k = ground (arith, starts_with_both s p q)

pub drop_prefix-append_both :
    (b p s : String) → drop_prefix (append b p) (append b s) ≡ drop_prefix p s
unfolding drop_prefix
drop_prefix-append_both [] p s = refl
drop_prefix-append_both (c ∷ b) p s = ground (arith, drop_prefix-append_both b p s)
