-- ===== src/Client/UrlGroup.antt =====
-- Blocking and unblocking a site: SophosClient.set_url_in_group of sophos_client.py.
pub mod Laws
use ha_sophos_fw.Prelude.{
  ℕ, zero, suc, ◌+◌, ◌-◌, ◌*◌, ◌/◌, ◌%◌, ◌≤◌, ◌<◌, String, ◌≡◌, refl, sym, ap, ◌∙◌, ◌≢◌, ◌↔◌, ◌⊎◌,
  inl, inr, Bool, true, false, not, ◌&&◌, ◌||◌, Option, none, some, List, [], ◌∷◌, ◌++◌, map, arith,
  ◌==◌, eq_iff, eq_refl, ltb, leb, eqb, if◌then◌else◌, leb→le, ltb→lt, eqb_iff, Bool-cases,
  Option-cases, or_else, is_some, get_or, ne→false, length, is_nil, keep_if, any_of, all_of,
  first_where, All, contains, Distinct,
}
use ha_sophos_fw.Text.{strip, lower}
use ha_sophos_fw.Xml.{
  Element, tag, children, with_children, leaf, branch, child_ci, child_text, stripped, edit_first,
  remove_first,
}
use ha_sophos_fw.Client.Errors.{write_error, Result, ok, err}
use ha_sophos_fw.Client.Request.{Request}
use ha_sophos_fw.Client.Answer.{Outcome}
use ha_sophos_fw.Client.Action.{Action}
use ha_sophos_fw.Client.Writing.{Change, modify_record}

-- An entry <URL> of the group for the wanted address.
unfoldable pub is_entry : String → Element → Bool
is_entry wanted e = lower (tag e) == "url" && lower (stripped e) == wanted

-- The group's <URLlist>, whatever the case of its tag.
unfoldable pub is_url_list : Element → Bool
is_url_list e = lower (tag e) == lower "URLlist"

entries : String → Option Element → List Element
entries wanted none = []
entries wanted (some l) = keep_if (is_entry wanted) (children l)

unfoldable pub urls : String → Element → List Element
unfolding entries child_ci
urls wanted e = entries wanted (child_ci "URLlist" e)

add_entry : String → Element → Element
add_entry wanted l = with_children (children l ++ leaf "URL" wanted ∷ []) l

drop_entries : String → Element → Element
drop_entries wanted l = with_children (keep_if (λ e. not (is_entry wanted e)) (children l)) l

insert_url : String → Option Element → Element → Element
unfolding add_entry
insert_url wanted none e =
    with_children (children e ++ branch "URLlist" (leaf "URL" wanted ∷ []) ∷ []) e
insert_url wanted (some l) e =
    with_children (edit_first is_url_list (add_entry wanted) (children e)) e

-- An empty group has no URLlist: the list goes with its last entry.
remove_url : String → Option Element → Element → Element
unfolding drop_entries
remove_url wanted none e = e
remove_url wanted (some l) e =
    if is_nil (children (drop_entries wanted l))
    then with_children (remove_first is_url_list (children e)) e
    else with_children (edit_first is_url_list (drop_entries wanted) (children e)) e

unfoldable pub is_editable : Element → Bool
is_editable e = lower (get_or (child_text "IsDefault" e) "No") == "no"

-- The closure `change`; its note is the variable `changed`.
unfoldable pub url_change : String → Bool → Change Bool
unfolding insert_url remove_url is_editable
url_change wanted present e =
    if not (is_editable e)
    then err (write_error (some "528"))
    else if present
    then (if is_nil (urls wanted e)
        then ok (true, insert_url wanted (child_ci "URLlist" e) e, true)
        else ok (false, e, false))
    else if is_nil (urls wanted e)
    then ok (false, e, false)
    else ok (true, remove_url wanted (child_ci "URLlist" e) e, true)

-- The closure `verify`: `bool(urls(e)) == present`.
unfoldable pub url_verify : String → Bool → Element → Bool
url_verify wanted true e = not (is_nil (urls wanted e))
url_verify wanted false e = is_nil (urls wanted e)

module _ {S : Type 0} (answer : Request → S → Outcome × S) where
  unfoldable pub set_url_in_group : String → String → Bool → Action S Bool
  set_url_in_group group url present =
      let wanted = lower (strip url) in
      modify_record answer "WebFilterURLGroup" group (url_change wanted present)
        (some (url_verify wanted present))
