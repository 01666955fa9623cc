-- ===== src/Client/Request.antt =====
-- What the client sends: the requests of sophos_client.py, and the text of their bodies.
use Prim.Native.Char.{Char}
use Prim.Native.String
use Prim.Native.String.{[], ◌∷◌}
use ha_sophos_fw.Prelude.{String, Bool, true, false, ◌==◌, if◌then◌else◌}
use ha_sophos_fw.Xml.{Element}

pub data Request : Type 0 where
  login : Request
  get : String → Request
  update : Element → Request
  add_ip_host : String → String → Request
  set_wireless : String → Bool → Request
  set_ipsec : String → Bool → Request

infixr 65 ◌++◌
abbrev ◌++◌ : String → String → String
s ++ t = String.◌++◌ s t

escape_char : Char → String
escape_char c =
    if (c ∷ []) == "&"
    then "&amp;"
    else if (c ∷ []) == "<"
    then "&lt;"
    else if (c ∷ []) == ">"
    then "&gt;"
    else c ∷ []

-- `xml.sax.saxutils.escape`
unfoldable pub xml_escape : String → String
unfolding escape_char
xml_escape [] = []
xml_escape (c ∷ s) = escape_char c ++ xml_escape s

unfoldable pub login_block : String → String → String
login_block username password =
    "<Login><Username>"
    ++ xml_escape username
    ++ "</Username><Password>"
    ++ xml_escape password
    ++ "</Password></Login>"

abbrev enable_text : Bool → String
enable_text true = "Enable"
enable_text false = "Disable"

abbrev pub active_tag : Bool → String
active_tag true = "Active"
active_tag false = "DeActive"

-- The body of a request. `to_text` is `ET.tostring`.
unfoldable pub body : (Element → String) → Request → String
body to_text login = ""
body to_text (get t) = "<Get><" ++ t ++ "/></Get>"
body to_text (update e) = "<Set operation=\"update\">" ++ to_text e ++ "</Set>"
body to_text (add_ip_host ip name) =
    "<Set operation=\"add\"><IPHost><Name>"
    ++ xml_escape name
    ++ "</Name><IPFamily>IPv4</IPFamily><HostType>IP</HostType><IPAddress>"
    ++ xml_escape ip
    ++ "</IPAddress><Description>Created by Home Assistant</Description></IPHost></Set>"
body to_text (set_wireless name enable) =
    "<Set operation=\"update\"><WirelessNetworkStatus><Name>"
    ++ xml_escape name
    ++ "</Name><Status>"
    ++ enable_text enable
    ++ "</Status></WirelessNetworkStatus></Set>"
body to_text (set_ipsec name active) =
    "<Set operation=\"update\"><VPNIPSecConnection><"
    ++ active_tag active
    ++ "><Name>"
    ++ xml_escape name
    ++ "</Name></"
    ++ active_tag active
    ++ "></VPNIPSecConnection></Set>"

-- `_request`
unfoldable pub request : String → String → String → String
request username password inner =
    "<Request>" ++ login_block username password ++ inner ++ "</Request>"
