-- ===== src/Tests/Answers.antt =====
-- Answers of the firewall, their records, and the texts in them.
use ha_sophos_fw.Prelude.{ℕ, String, ◌≡◌, refl, ◌⊎◌, Option, none, some, List, [], ◌∷◌, map}
use ha_sophos_fw.Text.{lower, has_part, lower_char}
use ha_sophos_fw.Xml.{Element, node, nil, leaf, branch, find, find_all, find_path, attribute}
use ha_sophos_fw.Xml.Value
use ha_sophos_fw.Xml.Value.{elem_to_dict, child_value}
use ha_sophos_fw.Xml.Laws.{gather, elem_to_dict-gather}
use ha_sophos_fw.Client.Answer.{answered, check_answer, check_login}
use ha_sophos_fw.Client.Answer.Laws.{LoggedIn, IsAccepted, check_answer_ok}

abbrev accepted : Element
accepted = branch "Response" (branch "Login" (leaf "status" "Authentication Successful" ∷ []) ∷ [])

check_answer_ok_example :
    (status : ℕ) × (answered 200 (some accepted) ≡ answered status (some accepted))
    × ((status ≡ 200) ⊎ (status ≡ 201))
    × LoggedIn accepted
    × ((find "Status" accepted ≡ none)
        ⊎ ((e : Element) × (find "Status" accepted ≡ some e) × IsAccepted (attribute "code" e)))
unfolding check_answer check_login find_path find lower has_part lower_char
check_answer_ok_example = check_answer_ok (answered 200 (some accepted)) accepted refl

abbrev refused : Element
refused =
    branch "Response" (node "Status" (("code", "532") ∷ []) (some "API access denied") nil ∷ [])

abbrev parsed : List (Option String)
parsed = some "lan" ∷ none ∷ some "wan" ∷ some "lan" ∷ []

abbrev lease : String → Element
lease mac = branch "Lease" (leaf "MACAddress" mac ∷ [])

abbrev leases : Element
leases = branch "StaticLease" (lease "00:11" ∷ lease "00:22" ∷ [])

abbrev server : Element
server = branch "DHCPServer" (leaf "Name" "lan" ∷ leases ∷ [])

elem_to_dict-gather_example :
    Value.get "Lease" (elem_to_dict leases) ≡ gather (map child_value (find_all "Lease" leases))
elem_to_dict-gather_example = elem_to_dict-gather "Lease" leases
