-- ===== src/ConfigFlow/Changes/Laws.antt =====
-- What a change of an entry's connection does to the entry, and how often it is reloaded.
use ha_sophos_fw.Prelude.{
  ℕ, ◌+◌, String, ◌≡◌, refl, sym, ap, ◌∙◌, ◌⊎◌, inl, inr, Bool, true, false, ◌&&◌, Option, none,
  some, List, [], ◌∷◌, ◌++◌, arith, ◌==◌, eq_refl, if◌then◌else◌, Bool-cases, or_else, get_or,
  any_of, all_of, Distinct,
}
use ha_sophos_fw.Prelude.Dict
use ha_sophos_fw.Prelude.Dict.{Dict, get-put, get-update}
use ha_sophos_fw.Text.{append}
use ha_sophos_fw.ConfigFlow.{Value, text, number, flag}
use ha_sophos_fw.ConfigFlow.Checks.{FlowError, XmlAttempt, test_xml_connection}
use ha_sophos_fw.ConfigFlow.Steps.{Connection, settings_of}
use ha_sophos_fw.ConfigFlow.Changes.{
  same_value, same_option, same_dict, Entry, Changed, apply, is_loaded, update_listener, done,
  changes, titled, update_entry, update_and_finish, confirmed, reauth_confirm, takes, reconfigure,
}

same_value_refl : (v : Value) → same_value v v ≡ true
same_value_refl (text s) = eq_refl s
same_value_refl (number n) = ground arith
same_value_refl (flag true) = refl
same_value_refl (flag false) = refl

same_option_refl : (o : Option Value) → same_option o o ≡ true
same_option_refl none = refl
same_option_refl (some v) = same_value_refl v

all_same :
    (d : Dict Value) (ks : List String)
    → all_of (λ k. same_option (Dict.get k d) (Dict.get k d)) ks ≡ true
all_same d [] = refl
all_same d (k ∷ ks) = ground (arith, same_option_refl (Dict.get k d), all_same d ks)

pub same_dict_refl : (d : Dict Value) → same_dict d d ≡ true
unfolding same_dict
same_dict_refl d = all_same d (Dict.keys d ++ Dict.keys d)

settings_of-Distinct : (c : Connection) → Distinct (Dict.keys (settings_of c))
unfolding settings_of
settings_of-Distinct c = (refl, (refl, (refl, (refl, (refl, tt)))))

get_or-titled :
    (e : Entry) (host : String)
    → get_or (titled e host) e.title
      ≡ (if same_option (Dict.get "host" e.settings) (some (text e.title)) then host else e.title)
unfolding titled
get_or-titled e host = ground arith

-- A loaded entry keeps the settings that it was set up with until it is reloaded.
unfoldable pub InStep : Entry → Type 0
InStep e = (e.loaded_with ≡ none) ⊎ (e.loaded_with ≡ some (e.settings, e.options))

module _ (fires : Entry → Entry → Bool)
    (calls : (e f : Entry) → same_dict f.settings e.settings ≡ false → fires e f ≡ true) where
  reloads_of :
      (e f : Entry)
      → f.loaded_with ≡ some (e.settings, e.options)
      → f.options ≡ e.options
      → update_entry fires e f + (if same_dict f.settings e.settings then 1 else 0) ≡ 1
  unfolding update_entry
  reloads_of e f p o =
      let listened : update_listener f f.loaded_with
          ≡ (if same_dict f.settings e.settings && same_dict f.options e.options then 0 else 1) =
        unfold update_listener in ap (update_listener f) p in
      let kept : same_dict f.options e.options ≡ true =
        ap (λ d. same_dict d e.options) o ∙ same_dict_refl e.options in
      ground (arith, listened, kept, calls e f)

  -- Storing new connection data reloads the entry exactly once, whether it is loaded or not and whether
  -- the data changed or not, if Home Assistant calls the listeners at least when the data changed, and a
  -- loaded entry was set up with the data and options that it has (InStep).
  pub update_and_finish_once :
      (e : Entry) (c : Changed) → InStep e → update_and_finish fires e c ≡ done (apply c e) 1
  unfolding update_and_finish is_loaded InStep apply
  update_and_finish_once e c (inl p) = ground (arith, p)
  update_and_finish_once e c (inr p) = ground (arith, p, reloads_of e (apply c e) p refl)

  confirmed_done :
      (e : Entry) (c : Changed) (o : Option FlowError) (after : Entry) (n : ℕ)
      → InStep e
      → confirmed fires e c o ≡ done after n
      → (o ≡ none) × (after ≡ apply c e) × (n ≡ 1)
  unfolding confirmed
  confirmed_done e c (some error) after n h ended = absurd (cc ended)
  confirmed_done e c none after n h ended =
      let once = sym ended ∙ update_and_finish_once e c h in (refl, cc once, cc once)

  -- Entering the password again ends the flow only if the firewall accepts the settings with the new
  -- password. Then they are stored, every other setting is kept, and the entry is reloaded once.
  pub reauth_confirm_done :
      (try_xml : Dict Value → XmlAttempt) (e after : Entry) (password : String) (n : ℕ)
      → InStep e
      → reauth_confirm fires try_xml e password ≡ done after n
      → (test_xml_connection (try_xml after.settings) ≡ none)
        × (n ≡ 1)
        × (after.options ≡ e.options)
        × (after.unique_id ≡ e.unique_id)
        × ((key : String)
            → Dict.get key after.settings
              ≡ (if "password" == key then some (text password) else Dict.get key e.settings))
  unfolding reauth_confirm confirmed apply
  reauth_confirm_done try_xml e after password n h ended =
      let settings = Dict.put "password" (text password) e.settings in
      let (passed, same, once) =
        confirmed_done e (record { settings = settings; title = none; unique_id = none }) _ after n
          h ended in
      (
        ap (λ (f : Entry). test_xml_connection (try_xml f.settings)) same ∙ passed,
        once,
        ap (λ (f : Entry). f.options) same,
        ap (λ (f : Entry). f.unique_id) same,
        λ key.
            ap (λ (f : Entry). Dict.get key f.settings) same
            ∙ get-put "password" key (text password) e.settings,
      )

  -- A new address is stored only if no other entry has it and the firewall accepts the settings entered.
  -- Then they replace the old ones, other settings and the options are kept, the unique id is the new
  -- address, a title that was the old host becomes the new host and any other title is kept, and the
  -- entry is reloaded once.
  pub reconfigure_done :
      (show : ℕ → String) (try_xml : Dict Value → XmlAttempt) (others : List Entry)
      (e after : Entry) (c : Connection) (n : ℕ)
      → InStep e
      → reconfigure fires show try_xml others e c ≡ done after n
      → (any_of (takes show c.host c.port e) others ≡ false)
        × (test_xml_connection (try_xml (settings_of c)) ≡ none)
        × (n ≡ 1)
        × (after.options ≡ e.options)
        × (after.unique_id ≡ some (append c.host (append ":" (show c.port))))
        × (after.title ≡ (
            if same_option (Dict.get "host" e.settings) (some (text e.title))
            then c.host
            else e.title))
        × ((key : String)
            → Dict.get key after.settings
              ≡ or_else (Dict.get key (settings_of c)) (Dict.get key e.settings))
  unfolding reconfigure apply
  reconfigure_done show try_xml others e after c n h ended =
      elim (Bool-cases (any_of (takes show c.host c.port e) others)) [
        | inl p ↦ absurd (cc (rw p at ended))
        | inr p ↦
            let (passed, same, once) =
              confirmed_done e (changes show e c) _ after n h (rw p at ended) in
            (
              p,
              passed,
              once,
              ap (λ (f : Entry). f.options) same,
              ap (λ (f : Entry). f.unique_id) same,
              ap (λ (f : Entry). f.title) same ∙ get_or-titled e c.host,
              λ key.
                  ap (λ (f : Entry). Dict.get key f.settings) same
                  ∙ get-update e.settings (settings_of c) key (settings_of-Distinct c),
            )
      ]
