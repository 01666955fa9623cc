-- ===== src/Tests/Actions.antt =====
-- The actions, against a firewall with one URL group.
use ha_sophos_fw.Prelude.{◌≡◌, refl, Bool, true, false, none, some, [], ◌∷◌}
use ha_sophos_fw.Prelude.Dict
use ha_sophos_fw.Xml.{
  Element, leaf, branch, node, nil, find, find_all, find_path, child_text, attribute, iter,
  is_status_only, stripped, child_ci,
}
use ha_sophos_fw.Text.{
  lower, strip, drop_prefix, non_empty, digits_only, has_part, is_digit, is_digit_char, is_space,
  lower_char, lstrip, rstrip,
}
use ha_sophos_fw.Client.Request.{Request, update}
use ha_sophos_fw.Client.Answer.{
  Outcome, answered, check_answer, check_login, confirm, is_success, find_record, record_name,
}
use ha_sophos_fw.Client.Action.{World}
use ha_sophos_fw.Client.Reading.{post, get_record_element}
use ha_sophos_fw.Client.Writing.{modify_record, write_changed, check_read_back, read_back}
use ha_sophos_fw.Client.UrlGroup.{
  url_change, urls, is_entry, is_url_list, is_editable, set_url_in_group,
}
use ha_sophos_fw.Services.Arguments.{domain}
use ha_sophos_fw.Services.Calls
use ha_sophos_fw.Services.Calls.{
  Entry, Refusal, Response, refused, refusal, respond, set_url, block_device, unblock_device,
}
use ha_sophos_fw.Services.Calls.Laws.{permits, not_permitted}

site : domain "HTTP://Example.COM./path" ≡ some "example.com"
unfolding domain drop_prefix lower strip
site = refl

-- A newline at the end passes the check, and is stripped only by the client.
newline_kept : domain "example.com\n/path" ≡ some "example.com\n"
unfolding domain drop_prefix lower strip
newline_kept = refl

abbrev group : Element
group = branch "WebFilterURLGroup" (
    leaf "Name" "Blocked"
    ∷ branch "URLlist" (leaf "URL" "old.org" ∷ [])
    ∷ leaf "IsDefault" "No"
    ∷ [])

-- The firewall's state is its URL group.
abbrev firewall : Request → Element → Outcome × Element
firewall (update e) state = (
  answered 200 (
      some (
        branch "Response" (
          branch "WebFilterURLGroup"
            (node "Status" (("code", "200") ∷ []) (some "applied") nil ∷ [])
          ∷ []))),
  e,
)
firewall r state = (answered 200 (some (branch "Response" (state ∷ []))), state)

abbrev before : World Element
before = record { server = group; sent = [] }

abbrev entry : Bool → Entry
entry allowed = record { domain = "sophos_firewall"; loaded = true; write_access = some allowed }

not_permitted_example :
    (r : Refusal) × (set_url firewall (some (entry false)) "Blocked" "new.org" true before
      ≡ (refused r, before))
    × (block_device firewall (some (entry false)) "Blocked" "new.org" none before
        ≡ (refused r, before))
    × (unblock_device firewall (some (entry false)) "Blocked" "new.org" before
        ≡ (refused r, before))
not_permitted_example =
    not_permitted firewall (some (entry false)) "Blocked" "new.org" none true before
      (unfold permits in refl)

-- A site that the group has already.
present :
    (set_url firewall (some (entry true)) "Blocked" "old.org" true before).0 ≡ Calls.answered false
unfolding set_url refusal respond set_url_in_group modify_record get_record_element post
    check_answer find_path find find_record iter is_status_only record_name strip url_change urls
    is_entry is_url_list is_editable child_ci child_text non_empty stripped write_changed
    check_login confirm is_success check_read_back read_back Dict.get digits_only has_part is_digit
    is_digit_char is_space lower lower_char lstrip rstrip attribute find_all
present = refl
