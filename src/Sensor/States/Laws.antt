-- ===== src/Sensor/States/Laws.antt =====
-- The states shown are among the sensor's options, and an unknown value is logged once.
use ha_sophos_fw.Prelude.{
  ℕ, suc, ◌+◌, ◌-◌, String, ◌≡◌, refl, ap, inl, inr, Bool, true, false, not, ◌&&◌, ◌||◌, Option,
  none, some, List, [], ◌∷◌, ◌++◌, arith, eq_iff, eq_refl, ltb, eqb, if◌then◌else◌, Bool-cases,
  length, any_of, contains,
}
use ha_sophos_fw.Text.{strip, lower}
use ha_sophos_fw.Sensor.States.{Log, same_pair, has_pair, warn, enum_state, nth, code_state}

-- A state is none or one of the options.
abbrev pub Among : List String → Option String → Type 0
Among options none = Unit
Among options (some s) = contains options s ≡ true

Among-cons : (s : String) (ss : List String) (o : Option String) → Among ss o → Among (s ∷ ss) o
Among-cons s ss none h = tt
Among-cons s ss (some t) h = ground (arith, h)

pub nth-Among : (n : ℕ) (ss : List String) → Among ss (nth n ss)
nth-Among n [] = tt
nth-Among n (s ∷ ss) = elim (Bool-cases (eqb n 0)) [
  | inl p ↦ rw p (ground (arith, eq_refl s))
  | inr p ↦ rw p (Among-cons s ss (nth (n - 1) ss) (nth-Among (n - 1) ss))
]

-- Whatever the firewall answers, an enumeration shows nothing or one of its options.
pub enum_state-Among :
    (key : String) (value : Option String) (options : List String) (l : Log)
    → Among options (enum_state key value options l).0
unfolding enum_state
enum_state-Among key none options l = tt
enum_state-Among key (some value) options l =
    elim (Bool-cases (contains options (lower (strip value)))) [ inl p ↦ rw p p | inr p ↦ rw p tt ]

-- The same holds of a code.
pub code_state-Among :
    (show : ℕ → String) (key : String) (code : Option ℕ) (states : List String) (l : Log)
    → Among states (code_state show key code states l).0
unfolding code_state enum_state
code_state-Among show key none states l = tt
code_state-Among show key (some code) states l = elim (Bool-cases (ltb code (length states))) [
  | inl p ↦ rw p (nth-Among code states)
  | inr p ↦ rw p tt
]

-- A sequence of readings of enumerations, one after the other.
pub record Reading : Type 0 where
  pub key : String
  pub value : Option String
  pub options : List String

unfoldable pub read_all : List Reading → Log → Log
read_all [] l = l
read_all (r ∷ rs) l = read_all rs (enum_state r.key r.value r.options l).1

abbrev pub count : String × String → List (String × String) → ℕ
count p [] = 0
count p (q ∷ l) = if same_pair p q then suc (count p l) else count p l

-- The pair is what a reading warns of.
warns_of : String × String → String → Option String → List String → Bool
warns_of p key none options = false
warns_of p key (some v) options = same_pair p (key, v) && not (contains options (lower (strip v)))

unfoldable pub is_unknown : String × String → Reading → Bool
unfolding warns_of
is_unknown p r = warns_of p r.key r.value r.options

same_pair_eq : (p q : String × String) → same_pair p q ≡ true → p ≡ q
same_pair_eq (a, b) (c, d) h =
    let first : a ≡ c = ground (arith, eq_iff a c, h) in
    let second : b ≡ d = ground (arith, eq_iff b d, h) in λ i. (first i, second i)

count-append :
    (p q : String × String) (l : List (String × String))
    → count p (l ++ q ∷ []) ≡ count p l + (if same_pair p q then 1 else 0)
count-append p q [] = ground arith
count-append p q (x ∷ l) = ground (arith, count-append p q l)

-- The pair is seen if it has been warned of, once.
Counted : String × String → Log → Type 0
Counted p l = count p l.warnings ≡ (if has_pair l.seen p then 1 else 0)

warn-Counted :
    (p : String × String) (key value : String) (l : Log)
    → Counted p l
    → Counted p (warn key value l)
      × (has_pair (warn key value l).seen p ≡ has_pair l.seen p || same_pair p (key, value))
unfolding warn Counted
warn-Counted p key value l h = elim (Bool-cases (same_pair p (key, value))) [
  | inl e ↦
      let same = ap (has_pair l.seen) (same_pair_eq p (key, value) e) in
      (ground (arith, same, e, h, count-append p (key, value) l.warnings), ground (arith, same, e))
  | inr e ↦ (ground (arith, e, h, count-append p (key, value) l.warnings), ground (arith, e))
]

value-Counted :
    (p : String × String) (key : String) (value : Option String) (options : List String) (l : Log)
    → Counted p l
    → Counted p (enum_state key value options l).1
      × (has_pair (enum_state key value options l).1.seen p
          ≡ has_pair l.seen p || warns_of p key value options)
unfolding enum_state warns_of
value-Counted p key none options l h = (h, ground arith)
value-Counted p key (some v) options l h = elim (Bool-cases (contains options (lower (strip v)))) [
  | inl c ↦ rw c (h, ground (arith, c))
  | inr c ↦ let (kept, seen) = warn-Counted p key v l h in rw c (kept, ground (arith, c, seen))
]

state-Counted :
    (p : String × String) (r : Reading) (l : Log)
    → Counted p l
    → Counted p (enum_state r.key r.value r.options l).1
      × (has_pair (enum_state r.key r.value r.options l).1.seen p
          ≡ has_pair l.seen p || is_unknown p r)
unfolding is_unknown
state-Counted p r l h = value-Counted p r.key r.value r.options l h

read_all-count :
    (p : String × String) (rs : List Reading) (l : Log)
    → Counted p l
    → count p (read_all rs l).warnings
      ≡ (if has_pair l.seen p || any_of (is_unknown p) rs then 1 else 0)
unfolding read_all Counted
read_all-count p [] l h = ground (arith, h)
read_all-count p (r ∷ rs) l h =
    let (kept, seen) = state-Counted p r l h in
    ground (arith, read_all-count p rs (enum_state r.key r.value r.options l).1 kept, seen)

-- However often a value that no state stands for is read, it is logged exactly once.
pub warned_once :
    (p : String × String) (rs : List Reading)
    → count p (read_all rs (record { seen = []; warnings = [] })).warnings
      ≡ (if any_of (is_unknown p) rs then 1 else 0)
unfolding Counted
warned_once p rs = read_all-count p rs _ refl
