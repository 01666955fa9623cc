-- ===== src/ConfigFlow/Steps/Progress.antt =====
-- A flow whose tests pass comes to its end.
use mathlib.Core.Path.{subst}
use ha_sophos_fw.Prelude.{
  ℕ, String, ◌≡◌, refl, sym, ap, ◌∙◌, zero, suc, Bool, true, false, Option, none, some, List, [],
  ◌∷◌, arith, if◌then◌else◌,
}
use ha_sophos_fw.Prelude.Dict
use ha_sophos_fw.Prelude.Dict.{Dict}
use ha_sophos_fw.ConfigFlow.{Value, flag, polling_sections, flatten, filled}
use ha_sophos_fw.ConfigFlow.Checks.{FlowError, test_xml_connection, test_snmp_connection}
use ha_sophos_fw.ConfigFlow.Steps.{
  Connection, settings_of, SnmpInput, snmp_settings, Step, user, snmp, write_access, polling, Test,
  xml_test, snmp_test, Flow, Surroundings, Outcome, form, created, start, address, connected,
  step_user, snmp_done, step_snmp, step_write_access, step_polling, is_on, submit,
}

module _ (show : ℕ → String) (around : Surroundings) (c : Connection) where
  -- No entry and no other flow has the address yet, and the firewall accepts the settings.
  abbrev Accepted : Type 0
  Accepted =
      (around.entry_with c.host c.port ≡ false)
      × (around.in_progress (address show c) ≡ false)
      × (around.entry_with_id (address show c) ≡ false)
      × (test_xml_connection (around.try_xml (settings_of c)) ≡ none)

  -- The form of a step, with a flow that holds the connection and the unique id.
  At : Step → Outcome → Type 0
  At s o =
      (g : Flow) × (o ≡ form s none g)
      × (g.connection ≡ some c)
      × (g.unique_id ≡ some (address show c))

  step_user-Accepted : (f : Flow) → Accepted → At snmp (step_user show around c f)
  unfolding step_user connected At
  step_user-Accepted f (free, alone, new, passed) =
      let tests = xml_test (settings_of c) (around.try_xml (settings_of c)) ∷ f.tests in
      let g : Flow = record f {
        tests = tests;
        connection = some c;
        unique_id = some (address show c);
      } in
      (g, ground (arith, free, alone, new, passed), refl, refl)

  if-At : (s : Step) (b : Bool) (x y : Outcome) → At s x → At s y → At s (if b then x else y)
  if-At s true x y h k = h
  if-At s false x y h k = k

  snmp_done-At :
      (i : SnmpInput) (f : Flow) (o : Option FlowError)
      → o ≡ none
      → f.connection ≡ some c
      → f.unique_id ≡ some (address show c)
      → At write_access (snmp_done i f o)
  unfolding snmp_done At
  snmp_done-At i f (some e) h is id = absurd (cc h)
  snmp_done-At i f none h is id =
      let g : Flow = record f { options = Dict.update f.options (snmp_settings i) } in
      (g, refl, is, id)

  step_snmp-Accepted :
      (i : SnmpInput) (f : Flow)
      → test_snmp_connection (around.try_snmp c.host i.snmp_community) ≡ none
      → f.connection ≡ some c
      → f.unique_id ≡ some (address show c)
      → At write_access (step_snmp around i f (some c))
  unfolding step_snmp
  step_snmp-Accepted i f passed is id =
      let tried : Flow = record f {
        tests =
            snmp_test c.host i.snmp_community (around.try_snmp c.host i.snmp_community) ∷ f.tests;
      } in
      if-At write_access i.snmp_enabled _ _ (snmp_done-At i tried _ passed is id)
        (snmp_done-At i f none refl is id)

  -- What is entered in the form that is shown; after the last one, nothing.
  unfoldable pub fill : SnmpInput → Bool → (String → Value) → Outcome → Outcome
  unfolding submit
  fill i allowed value (form user e f) = submit show around user c f
  fill i allowed value (form snmp e f) = submit show around snmp i f
  fill i allowed value (form write_access e f) = submit show around write_access allowed f
  fill i allowed value (form polling e f) = submit show around polling value f
  fill i allowed value o = o

  unfoldable pub fill_times : ℕ → SnmpInput → Bool → (String → Value) → Outcome → Outcome
  fill_times zero i allowed value o = o
  fill_times (suc n) i allowed value o = fill_times n i allowed value (fill i allowed value o)

  fill-At :
      (i : SnmpInput) (allowed : Bool) (value : String → Value) (o : Outcome)
      → At write_access o
      → (options : Dict Value) × (tests : List Test) × (fill_times 2 i allowed value o
          ≡ created c.host (settings_of c) options (some (address show c)) tests)
  unfolding At fill fill_times submit step_write_access step_polling
  fill-At i allowed value o (g, p, is, id) =
      let h : Flow = record g { options = Dict.put "write_access" (flag allowed) g.options } in
      let sections =
        polling_sections (is_on (Dict.get "snmp_enabled" h.options)) (λ key default. default) in
      let options = Dict.update h.options (flatten (filled value sections)) in
      (
        options,
        g.tests,
        ap (λ x. fill i allowed value (fill i allowed value x)) p
            ∙ ap (λ m. step_polling value h m) is
            ∙ ap (λ u. created c.host (settings_of c) options u g.tests) id,
      )

  -- If no entry and no other flow has the address, the firewall accepts the settings, and SNMP answers
  -- for the community entered, then the flow that fills the four forms it shows ends with the entry for
  -- the firewall: its title is the host, its data are the settings, and its unique id is the address,
  -- whatever is entered in the last two forms.
  pub created_from_start :
      (i : SnmpInput) (allowed : Bool) (value : String → Value)
      → around.entry_with c.host c.port ≡ false
      → around.in_progress (address show c) ≡ false
      → around.entry_with_id (address show c) ≡ false
      → test_xml_connection (around.try_xml (settings_of c)) ≡ none
      → test_snmp_connection (around.try_snmp c.host i.snmp_community) ≡ none
      → (options : Dict Value) × (tests : List Test) × (fill_times 4 i allowed value start
          ≡ created c.host (settings_of c) options (some (address show c)) tests)
  unfolding start fill fill_times submit At
  created_from_start i allowed value free alone new accepted passed =
      let blank : Flow = record { connection = none; options = []; unique_id = none; tests = [] } in
      let (f, p, is, id) = step_user-Accepted blank (free, alone, new, accepted) in
      let at_write : At write_access (step_snmp around i f f.connection) =
        subst (λ x. At write_access (step_snmp around i f x)) (sym is)
          (step_snmp-Accepted i f passed is id) in
      let rest = fill-At i allowed value (step_snmp around i f f.connection) at_write in
      (rest.0, rest.1, ap (λ o. fill_times 3 i allowed value o) p ∙ rest.2)
