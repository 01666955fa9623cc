-- ===== src/ConfigFlow/Steps/Laws.antt =====
-- What holds of every flow that sets up an entry.
use mathlib.Core.Path.{subst}
use ha_sophos_fw.Prelude.{
  ℕ, String, ◌≡◌, refl, sym, ap, ◌⊎◌, inl, inr, Bool, true, false, Option, none, some, List, [],
  ◌∷◌, arith, ◌==◌, if◌then◌else◌, Bool-cases, contains,
}
use ha_sophos_fw.Prelude.Dict
use ha_sophos_fw.Prelude.Dict.{Dict, get-put, get-update}
use ha_sophos_fw.ConfigFlow.{
  Value, flag, polling_sections, filled, flatten, field_keys, get-flatten, flatten-Distinct,
}
use ha_sophos_fw.ConfigFlow.Checks.{FlowError, test_xml_connection, test_snmp_connection}
use ha_sophos_fw.ConfigFlow.Steps.{
  Connection, settings_of, SnmpInput, snmp_settings, Step, user, snmp, write_access, polling, Input,
  Test, xml_test, snmp_test, Flow, Surroundings, Outcome, form, already_configured,
  already_in_progress, created, key_error, start, address, connected, step_user, snmp_done,
  step_snmp, is_on, step_polling, submit, Reached, begin, next,
}

-- Among the tests is one of the XML API with the settings, or of SNMP, that found no error.
unfoldable pub XmlPassed : Dict Value → List Test → Type 0
XmlPassed settings [] = ⊥
XmlPassed settings (xml_test d a ∷ ts) =
    ((d ≡ settings) × (test_xml_connection a ≡ none)) ⊎ XmlPassed settings ts
XmlPassed settings (t ∷ ts) = XmlPassed settings ts

unfoldable pub SnmpPassed : String → String → List Test → Type 0
SnmpPassed host community [] = ⊥
SnmpPassed host community (snmp_test h c a ∷ ts) =
    ((h ≡ host) × (c ≡ community) × (test_snmp_connection a ≡ none)) ⊎ SnmpPassed host community ts
SnmpPassed host community (t ∷ ts) = SnmpPassed host community ts

module _ (show : ℕ → String) where
  -- After the first form: its connection was tested, and the unique id is its address.
  unfoldable pub Connected : Connection → Flow → Type 0
  Connected c f =
      (f.connection ≡ some c)
      × (f.unique_id ≡ some (address show c))
      × XmlPassed (settings_of c) f.tests

  -- After the second: if SNMP is on, it was tested with the host and the community.
  unfoldable pub Chosen : Connection → SnmpInput → List Test → Type 0
  Chosen c i tests = (i.snmp_enabled ≡ false) ⊎ SnmpPassed c.host i.snmp_community tests

  -- The options of an entry: the fields of the last form, which stand for the sources that the second
  -- form chose, the choice of the third, and those of the second.
  unfoldable pub option_of : SnmpInput → Bool → (String → Value) → String → Option Value
  option_of i allowed value k =
      if contains (field_keys (polling_sections i.snmp_enabled (λ key default. default))) k
      then some (value k)
      else if "write_access" == k
      then some (flag allowed)
      else Dict.get k (snmp_settings i)

  unfoldable pub Sound : Outcome → Type 0
  Sound (form user e f) = f.options ≡ []
  Sound (form snmp e f) = (c : Connection) × Connected c f × (f.options ≡ [])
  Sound (form write_access e f) =
      (c : Connection) × (i : SnmpInput) × Connected c f
      × Chosen c i f.tests
      × (f.options ≡ snmp_settings i)
  Sound (form polling e f) =
      (c : Connection) × (i : SnmpInput) × (allowed : Bool) × Connected c f
      × Chosen c i f.tests
      × (f.options ≡ Dict.put "write_access" (flag allowed) (snmp_settings i))
  Sound already_configured = Unit
  Sound already_in_progress = Unit
  Sound (created title settings options unique_id tests) =
      (c : Connection) × (i : SnmpInput) × (allowed : Bool) × (value : String → Value) × (title
        ≡ c.host)
      × (settings ≡ settings_of c)
      × (unique_id ≡ some (address show c))
      × XmlPassed settings tests
      × ((i.snmp_enabled ≡ false) ⊎ SnmpPassed title i.snmp_community tests)
      × ((k : String) → Dict.get k options ≡ option_of i allowed value k)
  Sound key_error = ⊥

  connected-Sound :
      (around : Surroundings) (c : Connection) (f : Flow) (o : Option FlowError)
      → f.options ≡ []
      → (o ≡ none → XmlPassed (settings_of c) f.tests)
      → Sound (connected show around c f o)
  unfolding connected Sound Connected
  connected-Sound around c f (some e) h p = h
  connected-Sound around c f none h p = elim (Bool-cases (around.in_progress (address show c))) [
    | inl q ↦ rw q tt
    | inr q ↦ elim (Bool-cases (around.entry_with_id (address show c))) [
      | inl r ↦ rw (q, r) tt
      | inr r ↦ rw (q, r) (c, (refl, refl, p refl), h)
    ]
  ]

  step_user-Sound :
      (around : Surroundings) (c : Connection) (f : Flow)
      → f.options ≡ []
      → Sound (step_user show around c f)
  unfolding step_user Sound XmlPassed
  step_user-Sound around c f h =
      let passed : Flow = record f {
        tests = xml_test (settings_of c) (around.try_xml (settings_of c)) ∷ f.tests;
      } in
      elim (Bool-cases (around.entry_with c.host c.port)) [
        | inl p ↦ rw p tt
        | inr p ↦ rw p (connected-Sound around c passed _ h (λ q. inl (refl, q)))
      ]

  if-Sound :
      (b : Bool) (x y : Outcome)
      → (b ≡ true → Sound x)
      → (b ≡ false → Sound y)
      → Sound (if b then x else y)
  if-Sound true x y h k = h refl
  if-Sound false x y h k = k refl

  snmp_done-Sound :
      (c : Connection) (i : SnmpInput) (f : Flow) (o : Option FlowError)
      → Connected c f
      → f.options ≡ []
      → (o ≡ none → Chosen c i f.tests)
      → Sound (snmp_done i f o)
  unfolding snmp_done Sound Connected Dict.update Dict.put snmp_settings
  snmp_done-Sound c i f (some e) k h p = (c, k, h)
  snmp_done-Sound c i f none k h p = (c, i, k, p refl, ap (λ o. Dict.update o (snmp_settings i)) h)

  step_snmp-Sound :
      (around : Surroundings) (c : Connection) (i : SnmpInput) (f : Flow)
      → Connected c f
      → f.options ≡ []
      → Sound (step_snmp around i f (some c))
  unfolding step_snmp Sound Connected Chosen SnmpPassed XmlPassed
  step_snmp-Sound around c i f k h =
      let tried : Flow = record f {
        tests =
            snmp_test c.host i.snmp_community (around.try_snmp c.host i.snmp_community) ∷ f.tests;
      } in
      if-Sound i.snmp_enabled _ _
        (λ on. snmp_done-Sound c i tried _ k h (λ q. inr (inl (refl, refl, q))))
        (λ off. snmp_done-Sound c i f none k h (λ _. inl off))

  get-created :
      (i : SnmpInput) (allowed : Bool) (value : String → Value) (k : String)
      → let options = Dict.put "write_access" (flag allowed) (snmp_settings i) in
        Dict.get k (
          Dict.update options (
            flatten (
              filled value (
                polling_sections
                  (is_on (Dict.get "snmp_enabled" options))
                  (λ key default. default)))))
        ≡ option_of i allowed value k
  unfolding option_of Dict.get Dict.put snmp_settings
  get-created i allowed value k =
      let options = Dict.put "write_access" (flag allowed) (snmp_settings i) in
      let sections = polling_sections i.snmp_enabled (λ key default. default) in
      let input = flatten (filled value sections) in
      ground (
        arith,
        get-update options input k (flatten-Distinct (filled value sections)),
        get-flatten value sections k,
        get-put "write_access" k (flag allowed) (snmp_settings i),
      )

  step_polling-Sound :
      (c : Connection) (i : SnmpInput) (allowed : Bool) (value : String → Value) (f : Flow)
      → Connected c f
      → Chosen c i f.tests
      → f.options ≡ Dict.put "write_access" (flag allowed) (snmp_settings i)
      → Sound (step_polling value f (some c))
  unfolding step_polling Sound Connected Chosen
  step_polling-Sound c i allowed value f (k, u, x) p o =
      (c, i, allowed, value, refl, refl, u, x, p, λ key. rw o (get-created i allowed value key))

  submit-Sound :
      (s : Step) (e : Option FlowError) (f : Flow) (around : Surroundings) (input : Input s)
      → Sound (form s e f)
      → Sound (submit show around s input f)
  unfolding submit Sound Connected
  submit-Sound user e f around c h = step_user-Sound around c f h
  submit-Sound snmp e f around i (c, k, h) =
      subst (λ o. Sound (step_snmp around i f o)) (sym k.0) (step_snmp-Sound around c i f k h)
  submit-Sound write_access e f around allowed (c, i, k, p, o) =
      (c, i, allowed, k, p, ap (Dict.put "write_access" (flag allowed)) o)
  submit-Sound polling e f around value (c, i, allowed, k, p, o) =
      subst (λ x. Sound (step_polling value f x)) (sym k.0)
        (step_polling-Sound c i allowed value f k p o)

  -- Whatever the user enters, and whatever the firewall and Home Assistant answer: a flow never fails on
  -- a step that is missing, and an entry that it creates has the settings of the first form, which passed
  -- the test of the XML API, their host as title and their address as unique id. If its options turn SNMP
  -- on, SNMP answered for the host and the community. Its options are the fields of the last form, and
  -- the choices of the other two.
  pub Reached-Sound : (o : Outcome) → Reached show o → Sound o
  unfolding Sound start
  Reached-Sound o begin = refl
  Reached-Sound o (next {s} {e} {f} r around input) =
      submit-Sound s e f around input (Reached-Sound _ r)
