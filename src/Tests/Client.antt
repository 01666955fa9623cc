-- ===== src/Tests/Client.antt =====
-- A firewall with one IP host group and one URL group, and the writes of sophos_client.py on them.
use ha_sophos_fw.Prelude.{
  String, ◌≡◌, refl, ◌⊎◌, Bool, true, false, Option, some, List, [], ◌∷◌, ◌++◌, ◌==◌, if◌then◌else◌,
  contains,
}
use ha_sophos_fw.Prelude.Dict
use ha_sophos_fw.Text.{
  strip, lower, non_empty, digits_only, has_part, is_digit, is_digit_char, is_space, lower_char,
  lstrip, rstrip,
}
use ha_sophos_fw.Xml.{
  Element, node, nil, leaf, branch, find, find_all, find_path, child_text, attribute, iter,
  is_status_only, stripped,
}
use ha_sophos_fw.Xml.Container.{items, fields}
use ha_sophos_fw.Client.Errors.{ok}
use ha_sophos_fw.Client.Request.{Request, get, update, add_ip_host}
use ha_sophos_fw.Client.Answer.{
  Outcome, answered, check_answer, check_login, confirm, is_success, find_record, record_name,
}
use ha_sophos_fw.Client.Action.{World}
use ha_sophos_fw.Client.Reading.{post, get_record_element}
use ha_sophos_fw.Client.Writing.{modify_record, write_changed, check_read_back, read_back}
use ha_sophos_fw.Client.Writing.Sent.{updates, Confirmed, updates-modify_record, modify_record_ok}
use ha_sophos_fw.Client.HostGroup.{
  host_members, check_ipv4_group, block_change, ip_hosts, block_ip_in_group,
}
use ha_sophos_fw.Client.HostGroup.Laws.{block_change_lem, is_host_list}
use ha_sophos_fw.Client.HostGroup.Additions.{additions, additions-block_ip_in_group}
use ha_sophos_fw.Client.UrlGroup.{urls, is_entry, is_url_list, is_editable, url_change, url_verify}
use ha_sophos_fw.Client.UrlGroup.Laws.{url_change_block}

abbrev group_of : List Element → Element
group_of hosts =
    branch "IPHostGroup"
      (leaf "Name" "Blocked" ∷ branch "HostList" hosts ∷ leaf "IPFamily" "IPv4" ∷ [])

abbrev tv : Element
tv = leaf "Host" "tv"

abbrev pc : Element
pc = leaf "Host" "pc"

abbrev success : String → Element
success t =
    branch "Response"
      (branch t (node "Status" (("code", "200") ∷ []) (some "applied") nil ∷ []) ∷ [])

-- The firewall's state is its IP host group; it reports no host.
abbrev firewall : Request → Element → Outcome × Element
firewall (update e) group = (answered 200 (some (success "IPHostGroup")), e)
firewall (add_ip_host ip name) group = (answered 200 (some (success "IPHost")), group)
firewall (get t) group =
    (answered 200 (some (branch "Response" (if t == "IPHostGroup" then group ∷ [] else []))), group)
firewall r group = (answered 200 (some (branch "Response" [])), group)

abbrev before : World Element
before = record { server = group_of (tv ∷ []); sent = [] }

abbrev is_blocked : Option (Element → Bool)
is_blocked = some (λ e. contains (host_members e) "pc")

updates-modify_record_example :
    let change = block_change "pc" in
    let sent = (modify_record firewall "IPHostGroup" "Blocked" change is_blocked before).1.sent in
    (updates sent ≡ updates before.sent)
    ⊎ ((e e' : Element) × (note : Unit {0}) × ((get_record_element firewall "IPHostGroup" "Blocked"
            before).0
          ≡ ok e)
        × (change e ≡ ok (true, e', note))
        × (updates sent ≡ updates before.sent ++ e' ∷ []))
updates-modify_record_example =
    updates-modify_record firewall "IPHostGroup" "Blocked" (block_change "pc") is_blocked before

modify_record_ok_example :
    let change = block_change "pc" in
    (e e' : Element) × ((get_record_element firewall "IPHostGroup" "Blocked" before).0 ≡ ok e)
    × ((change e ≡ ok (false, e', tt))
        ⊎ ((change e ≡ ok (true, e', tt))
            × Confirmed firewall "IPHostGroup" "Blocked" change is_blocked before e'))
unfolding modify_record get_record_element post check_answer find_path find find_record iter
    is_status_only record_name strip block_change check_ipv4_group child_text non_empty host_members
    stripped write_changed check_login confirm is_success check_read_back read_back Dict.get
    digits_only has_part is_digit is_digit_char is_space lower lower_char lstrip rstrip attribute
    find_all
modify_record_ok_example =
    modify_record_ok firewall "IPHostGroup" "Blocked" (block_change "pc") is_blocked before tt refl

additions-block_ip_in_group_example :
    let after = (get_record_element firewall "IPHostGroup" "Blocked" before).1 in
    let sent = (block_ip_in_group firewall "Blocked" "192.0.2.7" "pc" before).1.sent in
    (additions sent ≡ additions before.sent)
    ⊎ ((e : Element) × ((get_record_element firewall "IPHostGroup" "Blocked" before).0 ≡ ok e)
        × (check_ipv4_group e ≡ ok tt)
        × ((ip_hosts firewall "192.0.2.7" after).0 ≡ ok [])
        × (additions sent ≡ additions before.sent ++ ("192.0.2.7", "pc") ∷ []))
additions-block_ip_in_group_example =
    additions-block_ip_in_group firewall "Blocked" "192.0.2.7" "pc" before

block_change_lem_example :
    (items is_host_list (group_of (tv ∷ pc ∷ []))
      ≡ items is_host_list (group_of (tv ∷ [])) ++ leaf "Host" "pc" ∷ [])
    × (fields is_host_list (group_of (tv ∷ pc ∷ [])) ≡ fields is_host_list (group_of (tv ∷ [])))
    × (contains (host_members (group_of (tv ∷ pc ∷ []))) "pc" ≡ true)
unfolding block_change strip check_ipv4_group child_text non_empty host_members stripped
block_change_lem_example =
    block_change_lem "pc" (group_of (tv ∷ [])) (group_of (tv ∷ pc ∷ [])) tt refl refl

abbrev sites_of : List Element → Element
sites_of entries = branch "WebFilterURLGroup" (leaf "Name" "Sites" ∷ branch "URLlist" entries ∷ [])

abbrev one_site : List Element
one_site = leaf "URL" "a.example" ∷ []

abbrev two_sites : List Element
two_sites = leaf "URL" "a.example" ∷ leaf "URL" "b.example" ∷ []

abbrev b_example : String
b_example = lower (strip "b.example")

url_change_block_example :
    (items is_url_list (sites_of two_sites)
      ≡ items is_url_list (sites_of one_site) ++ leaf "URL" b_example ∷ [])
    × (fields is_url_list (sites_of two_sites) ≡ fields is_url_list (sites_of one_site))
    × (url_verify b_example true (sites_of two_sites) ≡ true)
unfolding url_change lower strip is_editable child_text urls is_entry stripped is_url_list
url_change_block_example =
    url_change_block "b.example" (sites_of one_site) (sites_of two_sites) true refl
