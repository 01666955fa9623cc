-- ===== src/Client/HostGroup.antt =====
-- Blocking and unblocking a device: the IP host groups of sophos_client.py.
pub mod Laws
pub mod Additions
use ha_sophos_fw.Prelude.{
  ℕ, zero, suc, ◌+◌, ◌-◌, ◌*◌, ◌/◌, ◌%◌, ◌≤◌, ◌<◌, String, ◌≡◌, refl, sym, ap, ◌∙◌, ◌≢◌, ◌↔◌, ◌⊎◌,
  inl, inr, Bool, true, false, not, ◌&&◌, ◌||◌, Option, none, some, List, [], ◌∷◌, ◌++◌, map, arith,
  ◌==◌, eq_iff, eq_refl, ltb, leb, eqb, if◌then◌else◌, leb→le, ltb→lt, eqb_iff, Bool-cases,
  Option-cases, or_else, is_some, get_or, ne→false, length, is_nil, keep_if, any_of, all_of,
  first_where, All, contains, Distinct,
}
use ha_sophos_fw.Xml.{
  Element, tag, children, with_children, leaf, branch, has_tag, find, find_all, iter, child_text,
  stripped, is_status_only, edit_first, remove_first, insert_before,
}
use ha_sophos_fw.Client.Errors.{write_error, Result, ok, err, require}
use ha_sophos_fw.Client.Request.{Request, get, add_ip_host}
use ha_sophos_fw.Client.Answer.{Outcome, confirm}
use ha_sophos_fw.Client.Action.{Action, pure, lift, ◌>>=◌, ◌>>◌}
use ha_sophos_fw.Client.Reading.{post, get_record_element}
use ha_sophos_fw.Client.Writing.{Change, modify_record}

is_host_at : String → Element → Bool
is_host_at ip e =
    not (is_status_only e)
    && get_or (child_text "HostType" e) "" == "IP"
    && get_or (child_text "IPAddress" e) "" == ip

present_names : List (Option String) → List String
present_names [] = []
present_names (none ∷ l) = present_names l
present_names (some s ∷ l) = s ∷ present_names l

-- The names of the IPHosts of type IP with the address, among the elements of an answer.
unfoldable pub hosts_at : String → List Element → List String
unfolding is_host_at present_names
hosts_at ip es = present_names (map (child_text "Name") (keep_if (is_host_at ip) es))

members_of : Option Element → List String
members_of none = []
members_of (some l) = map stripped (find_all "Host" l)

unfoldable pub host_members : Element → List String
unfolding members_of find find_all
host_members e = members_of (find "HostList" e)

unfoldable pub check_ipv4_group : Element → Result (Unit {0})
check_ipv4_group e = require (get_or (child_text "IPFamily" e) "IPv4" == "IPv4") (write_error none)

insert_host : String → Option Element → Element → Element
insert_host host none e =
    with_children
      (insert_before (has_tag "IPFamily") (branch "HostList" (leaf "Host" host ∷ [])) (children e))
      e
insert_host host (some l) e =
    with_children
      (edit_first (has_tag "HostList") (λ l. with_children (children l ++ leaf "Host" host ∷ []) l)
        (children e))
      e

-- The closure `change` of `block_ip_in_group`.
unfoldable pub block_change : String → Change (Unit {0})
unfolding insert_host
block_change host e = elim (check_ipv4_group e) [
  | err x ↦ err x
  | ok _ ↦
      if contains (host_members e) host
      then ok (false, e, tt)
      else ok (true, insert_host host (find "HostList" e) e, tt)
]

-- A <Host> entry of one of the hosts.
unfoldable pub is_entry_of : List String → Element → Bool
is_entry_of hosts e = has_tag "Host" e && contains hosts (stripped e)

drop_hosts : List String → Element → Element
drop_hosts hosts l = with_children (keep_if (λ e. not (is_entry_of hosts e)) (children l)) l

remove_hosts : List String → Element → Element → Element
unfolding drop_hosts
remove_hosts hosts l e =
    if is_nil (children (drop_hosts hosts l))
    then with_children (remove_first (has_tag "HostList") (children e)) e
    else with_children (edit_first (has_tag "HostList") (drop_hosts hosts) (children e)) e

unblock_list : List String → Option Element → Element → Result (Bool × Element × List String)
unfolding remove_hosts
unblock_list hosts none e = ok (false, e, [])
unblock_list hosts (some l) e =
    let removed = map stripped (keep_if (is_entry_of hosts) (children l)) in
    if is_nil removed then ok (false, e, []) else ok (true, remove_hosts hosts l e, removed)

-- The closure `change` of `unblock_ip_in_group`; its note is the list `removed`.
unfoldable pub unblock_change : List String → Change (List String)
unfolding unblock_list
unblock_change hosts e = elim (check_ipv4_group e) [
  | err x ↦ err x
  | ok _ ↦ unblock_list hosts (find "HostList" e) e
]

-- `not hosts.intersection(members)`
abbrev pub disjoint : List String → List String → Bool
disjoint hosts members = not (any_of (contains hosts) members)

module _ {S : Type 0} (answer : Request → S → Outcome × S) where
  unfoldable pub ip_hosts : String → Action S (List String)
  ip_hosts ip = do root ← post answer (get "IPHost"); pure (hosts_at ip (iter "IPHost" root))

  -- A refusal with code 502 is raised again with the same code and another message.
  unfoldable pub add_host : String → String → Action S String
  add_host ip name = do
    root ← post answer (add_ip_host ip name)
    lift (confirm root (("IPHost" ∷ "Status" ∷ []) ∷ []))
    pure name

  -- `hosts[0] if hosts else await self._add_ip_host_held(ip, name)`
  pick_host : List String → String → String → Action S String
  unfolding add_host
  pick_host (host ∷ hosts) ip name = pure host
  pick_host [] ip name = add_host ip name

  block_new : Option String → String → List String → String → String → Action S (Bool × String)
  unfolding pick_host
  block_new (some member) group hosts ip name = pure (false, member)
  block_new none group hosts ip name = do
    host ← pick_host hosts ip name
    modify_record answer "IPHostGroup" group (block_change host)
        (some (λ e. contains (host_members e) host))
    pure (true, host)

  unfoldable pub block_ip_in_group : String → String → String → Action S (Bool × String)
  unfolding ip_hosts block_new
  block_ip_in_group group ip name = do
    group_elem ← get_record_element answer "IPHostGroup" group
    lift (check_ipv4_group group_elem)
    hosts ← ip_hosts ip
    block_new (first_where (contains (host_members group_elem)) hosts) group hosts ip name

  unfoldable pub unblock_ip_in_group : String → String → Action S (Bool × List String)
  unfolding ip_hosts
  unblock_ip_in_group group ip = do
    hosts ← ip_hosts ip
    removed ←
        modify_record answer "IPHostGroup" group (unblock_change hosts)
          (some (λ e. disjoint hosts (host_members e)))
    pure (not (is_nil removed), removed)
