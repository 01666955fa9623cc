-- ===== src/Client/Answer/Laws.antt =====
-- When `_post` accepts an answer, which errors it raises otherwise, and what confirms a write.
use Prim.Native.Char.{Char, code}
use Prim.Native.String.{[], ◌∷◌}
use package.text.Mathlib.TextEquality.{Char-path}
use ha_sophos_fw.Prelude.{
  ℕ, String, ◌≡◌, refl, ap, ◌∙◌, ◌≢◌, ◌↔◌, ◌⊎◌, inl, inr, true, false, Option, none, some, List,
  arith, eq_iff, get_or,
}
use ha_sophos_fw.Text.{is_digit, is_digit_char, digits_only, lower, has_part}
use ha_sophos_fw.Xml.{Element, text, find, find_path, attribute}
use ha_sophos_fw.Client.Errors.{access_error, ok, err, Result-cases}
use ha_sophos_fw.Client.Answer.{
  Outcome, timed_out, client_error, answered, check_http, parsed, check_login, check_code,
  check_status, check_answer, is_success, login_path,
}

-- A code that is a success is a "2" and two more digits.
pub is_success_iff :
    (s : String)
    → (is_success s ≡ true) ↔ (
        (c d : Char) × (s ≡ "2" ∷ c ∷ d ∷ []) × (is_digit_char c ≡ true) × (is_digit_char d ≡ true))
unfolding is_success is_digit digits_only
is_success_iff s = (to s, λ h. from s h.0 h.1 h.2 h.3 h.4)
  where
    to :
        (s : String)
        → is_success s ≡ true
        → (c d : Char) × (s ≡ "2" ∷ c ∷ d ∷ [])
          × (is_digit_char c ≡ true)
          × (is_digit_char d ≡ true)
    to [] h = cc
    to (a ∷ []) h = cc
    to (a ∷ b ∷ []) h = cc
    to (a ∷ b ∷ c ∷ []) h = (
      b,
      c,
      ap (λ x. x ∷ b ∷ c ∷ []) (Char-path a "2" (ground arith)),
      ground arith,
      ground arith,
    )
    to (a ∷ b ∷ c ∷ d ∷ s) h = absurd (ground arith)

    from :
        (s : String) (c d : Char)
        → s ≡ "2" ∷ c ∷ d ∷ []
        → is_digit_char c ≡ true
        → is_digit_char d ≡ true
        → is_success s ≡ true
    from s c d e p q = rw (e, p, q) (ground arith)

-- There is no <Login><status>, or its text has neither "fail" nor "invalid" in it.
abbrev pub LoggedIn : Element → Type 0
LoggedIn root =
    (find_path (List.◌∷◌ "Login" (List.◌∷◌ "status" List.[])) root ≡ none)
    ⊎ ((e : Element) × (find_path (List.◌∷◌ "Login" (List.◌∷◌ "status" List.[])) root ≡ some e)
        × (has_part "fail" (lower (get_or (text e) "")) ≡ false)
        × (has_part "invalid" (lower (get_or (text e) "")) ≡ false))

check_login_ok :
    (o : Option Element)
    → check_login o ≡ ok tt
    → (o ≡ none)
      ⊎ ((e : Element) × (o ≡ some e)
          × (has_part "fail" (lower (get_or (text e) "")) ≡ false)
          × (has_part "invalid" (lower (get_or (text e) "")) ≡ false))
unfolding check_login
check_login_ok none h = inl refl
check_login_ok (some e) h = inr (e, refl, ground (arith, h), ground (arith, h))

check_http_ok :
    (o : Outcome) (root : Element)
    → check_http o ≡ ok root
    → (status : ℕ) × (o ≡ answered status (some root)) × ((status ≡ 200) ⊎ (status ≡ 201))
unfolding check_http parsed
check_http_ok timed_out root h = cc
check_http_ok client_error root h = cc
check_http_ok (answered status none) root h = absurd (ground arith)
check_http_ok (answered status (some r)) root h = (status, ground arith, ground arith)

abbrev pub IsAccepted : String → Type 0
IsAccepted code = (code ≡ "200") ⊎ ((code ≡ "201") ⊎ ((code ≡ "202") ⊎ (code ≡ "")))

check_status_ok :
    (o : Option Element)
    → check_status o ≡ ok tt
    → (o ≡ none) ⊎ ((e : Element) × (o ≡ some e) × IsAccepted (attribute "code" e))
unfolding check_status check_code
check_status_ok none h = inl refl
check_status_ok (some e) h =
    let code = attribute "code" e in
    inr (
      e,
      refl,
      ground (arith, h, eq_iff "200" code, eq_iff "201" code, eq_iff "202" code, eq_iff "" code),
    )

check_http_denied :
    (o : Outcome) (c : Option String)
    → check_http o ≡ err (access_error c)
    → (body : Option Element) × (o ≡ answered 403 body) × (c ≡ some "403")
unfolding check_http parsed
check_http_denied timed_out c h = cc
check_http_denied client_error c h = cc
check_http_denied (answered status none) c h = (none, ground arith, ground arith)
check_http_denied (answered status (some r)) c h = (some r, ground arith, ground arith)

check_login_denied : (o : Option Element) (c : Option String) → check_login o ≢ err (access_error c)
unfolding check_login
check_login_denied none c h = cc
check_login_denied (some e) c h = ground arith

check_status_denied :
    (o : Option Element) (c : Option String)
    → check_status o ≡ err (access_error c)
    → (e : Element) × (o ≡ some e)
      × (c ≡ some (attribute "code" e))
      × ((attribute "code" e ≡ "532") ⊎ (attribute "code" e ≡ "534"))
unfolding check_status check_code
check_status_denied none c h = cc
check_status_denied (some e) c h = (
  e,
  refl,
  ground arith,
  ground (arith, eq_iff (attribute "code" e) "532", eq_iff (attribute "code" e) "534"),
)

-- An answer is accepted only with HTTP status 200 or 201, a body that is XML, no text of a login's status
-- or one with neither "fail" nor "invalid" in it whatever the case, and no <Status> below it, or one whose code is 200, 201, 202 or empty.
pub check_answer_ok :
    (o : Outcome) (root : Element)
    → check_answer o ≡ ok root
    → (status : ℕ) × (o ≡ answered status (some root))
      × ((status ≡ 200) ⊎ (status ≡ 201))
      × LoggedIn root
      × ((find "Status" root ≡ none)
          ⊎ ((e : Element) × (find "Status" root ≡ some e) × IsAccepted (attribute "code" e)))
unfolding check_answer
check_answer_ok o root h = elim (Result-cases (check_http o)) [
  | inr (x, p) ↦ absurd (cc (rw p at h))
  | inl (r, p) ↦ elim (Result-cases (check_login (find_path login_path r))) [
    | inr (x, q) ↦ absurd (cc (rw (p, q) at h))
    | inl (u, q) ↦ elim (Result-cases (check_status (find "Status" r))) [
      | inr (x, s) ↦ absurd (cc (rw (p, q, s) at h))
      | inl (u, s) ↦
          let same : r ≡ root = cc (rw (p, q, s) at h) in
          let (status, is, code) = check_http_ok o r p in
          (
            status,
            rw (← same) is,
            code,
            rw (← same) (check_login_ok _ q),
            rw (← same) (check_status_ok _ s),
          )
    ]
  ]
]

-- Access counts as denied only by HTTP status 403, or in an accepted and logged-in answer by the codes
-- 532 and 534, and the error carries that code.
pub check_answer_denied :
    (o : Outcome) (c : Option String)
    → check_answer o ≡ err (access_error c)
    → ((body : Option Element) × (o ≡ answered 403 body) × (c ≡ some "403"))
      ⊎ ((root e : Element) × (find "Status" root ≡ some e)
          × LoggedIn root
          × (c ≡ some (attribute "code" e))
          × ((attribute "code" e ≡ "532") ⊎ (attribute "code" e ≡ "534")))
unfolding check_answer
check_answer_denied o c h = elim (Result-cases (check_http o)) [
  | inr (x, p) ↦ inl (check_http_denied o c (p ∙ cc (rw p at h)))
  | inl (r, p) ↦ elim (Result-cases (check_login (find_path login_path r))) [
    | inr (x, q) ↦ absurd (check_login_denied _ c (q ∙ cc (rw (p, q) at h)))
    | inl (u, q) ↦ elim (Result-cases (check_status (find "Status" r))) [
      | inr (x, s) ↦
          let (e, at, carried, code) = check_status_denied _ c (s ∙ cc (rw (p, q, s) at h)) in
          inr (r, e, at, check_login_ok _ q, carried, code)
      | inl (u, s) ↦ absurd (cc (rw (p, q, s) at h))
    ]
  ]
]
