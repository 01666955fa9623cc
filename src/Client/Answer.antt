-- ===== src/Client/Answer.antt =====
-- How sophos_client.py classifies what a request brought back: the checks of `_post`, `_is_success`,
-- `_confirm` and the search for one record in an answer.
pub mod Laws
use ha_sophos_fw.Prelude.{
  ℕ, zero, suc, ◌+◌, ◌-◌, ◌*◌, ◌/◌, ◌%◌, ◌≤◌, ◌<◌, String, ◌≡◌, refl, sym, ap, ◌∙◌, ◌≢◌, ◌↔◌, ◌⊎◌,
  inl, inr, Bool, true, false, not, ◌&&◌, ◌||◌, Option, none, some, List, [], ◌∷◌, ◌++◌, map, arith,
  ◌==◌, eq_iff, eq_refl, ltb, leb, eqb, if◌then◌else◌, leb→le, ltb→lt, eqb_iff, Bool-cases,
  Option-cases, or_else, is_some, get_or, ne→false, length, is_nil, keep_if, any_of, all_of,
  first_where, All, contains, Distinct,
}
use ha_sophos_fw.Text.{length as text_length, starts_with, lower, strip, is_digit, has_part}
use ha_sophos_fw.Xml.{Element, text, tag, find, find_path, iter, attribute, is_status_only}
use ha_sophos_fw.Client.Errors.{
  SophosError, connection_error, auth_error, api_error, not_found_error, access_error, write_error,
  Result, ok, err, ◌>>=◌, ◌>>◌, require,
}

-- What aiohttp and the XML parser give: the total timeout expired, another client error, or an HTTP
-- status with the parsed body (none for a body that is no XML).
pub data Outcome : Type 0 where
  timed_out client_error : Outcome
  answered : ℕ → Option Element → Outcome

parsed : Option Element → Result Element
parsed none = err api_error
parsed (some root) = ok root

check_http : Outcome → Result Element
unfolding parsed
check_http timed_out = err connection_error
check_http client_error = err connection_error
check_http (answered status body) =
    if eqb status 403
    then err (access_error (some "403"))
    else if eqb status 200 || eqb status 201
    then parsed body
    else err api_error

-- The text of <Login><status>.
unfoldable pub check_login : Option Element → Result (Unit {0})
check_login none = ok tt
check_login (some e) =
    let said = lower (get_or (text e) "") in
    require (not (has_part "fail" said || has_part "invalid" said)) auth_error

abbrev pub response_ok_codes : List String
response_ok_codes = "200" ∷ "201" ∷ "202" ∷ "" ∷ []

-- The code of a <Status> directly below the answer.
check_code : String → Result (Unit {0})
check_code code =
    if code == "532" || code == "534"
    then err (access_error (some code))
    else if code == "535"
    then err auth_error
    else require (contains response_ok_codes code) api_error

check_status : Option Element → Result (Unit {0})
unfolding check_code
check_status none = ok tt
check_status (some e) = check_code (attribute "code" e)

abbrev pub login_path : List String
login_path = "Login" ∷ "status" ∷ []

-- `_post` behind the HTTP exchange.
unfoldable pub check_answer : Outcome → Result Element
unfolding check_http check_login check_status
check_answer o = do
  root ← check_http o
  check_login (find_path login_path root)
  check_status (find "Status" root)
  ok root

-- `_is_success`
unfoldable pub is_success : String → Bool
is_success code = eqb (text_length code) 3 && is_digit code && starts_with code "2"

first_path : List (List String) → Element → Option Element
first_path [] root = none
first_path (p ∷ ps) root = or_else (find_path p root) (first_path ps root)

check_confirmed : Option Element → Result (Unit {0})
check_confirmed none = err api_error
check_confirmed (some e) =
    let code = attribute "code" e in require (is_success code) (write_error (some code))

-- `_confirm`
unfoldable pub confirm : Element → List (List String) → Result (Unit {0})
unfolding first_path check_confirmed
confirm root paths = check_confirmed (first_path paths root)

-- `(elem.findtext("Name") or "").strip()`
name_text : Option Element → String
name_text none = ""
name_text (some e) = strip (get_or (text e) "")

unfoldable pub record_name : Element → String
unfolding name_text
record_name e = name_text (find "Name" e)

coded : Option Element → Option Element → Option Element
coded none error = error
coded (some status) error = if attribute "code" status == "" then error else some status

not_there : Option Element → SophosError
not_there none = not_found_error
not_there (some status) = api_error

-- The loop of `_get_record_element`; `error` is the last status with a code so far.
unfoldable pub find_record : String → List Element → Option Element → Result Element
unfolding coded not_there
find_record name [] error = err (not_there error)
find_record name (e ∷ es) error =
    let rest =
      find_record name es (if is_status_only e then coded (find "Status" e) error else error) in
    if is_status_only e then rest else if record_name e == name then ok e else rest
