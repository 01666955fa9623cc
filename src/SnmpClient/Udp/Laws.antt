-- ===== src/SnmpClient/Udp/Laws.antt =====
-- What an exchange with the agent returns, and the sockets that it leaves open.
use ha_sophos_fw.Prelude.{
  ℕ, zero, suc, ◌+◌, ◌≤◌, ◌<◌, ◌≡◌, ◌⊎◌, refl, none, some, List, [], ◌∷◌, arith, Option-cases, inl,
  inr, ◌∙◌, ap,
}
use ha_sophos_fw.SnmpClient.Udp.{
  snmp_error, result, Event, Attempt, refused, waits, is_cancelled, Sockets, Sent, reply, raised,
  deliver, deliver_all, wait, ends, sockets_after, turns, send_udp, attempts, datagram_received,
  error_received, connection_lost,
}

-- Every socket that was opened has had its packet sent and is closed.
pub record IsClean (s : Sockets) : Type 0 where
  pub all_sent : s.sent ≡ s.opened
  pub all_closed : s.closed ≡ s.opened

le-cases : (n i : ℕ) → n ≤ i → (n < i) ⊎ (n ≡ i)
le-cases n i h = ground arith

module _ {A : Type 0} where
  deliver-result : (event : Event A) (a : A) → deliver event (result a) ≡ result a
  unfolding deliver
  deliver-result (datagram_received b) a = refl
  deliver-result (error_received exc) a = refl
  deliver-result (connection_lost none) a = refl
  deliver-result (connection_lost (some exc)) a = refl

  -- Callbacks after one that settles the response change nothing.
  deliver_all-settled : (events : List (Event A)) (a : A) → deliver_all events (result a) ≡ result a
  unfolding deliver_all
  deliver_all-settled [] a = refl
  deliver_all-settled (e ∷ events) a = rw (deliver-result e a) (deliver_all-settled events a)

  sockets_after-IsClean : (a : Attempt A) (s : Sockets) → IsClean s → IsClean (sockets_after a s)
  unfolding sockets_after
  sockets_after-IsClean (refused exc) s h = h
  sockets_after-IsClean (waits events) s h = record {
    all_sent = ap (λ n. n + 1) h.all_sent;
    all_closed = ap (λ n. n + 1) h.all_closed;
  }
  sockets_after-IsClean (is_cancelled events) s h = record {
    all_sent = ap (λ n. n + 1) h.all_sent;
    all_closed = ap (λ n. n + 1) h.all_closed;
  }

  sockets_after-opened : (a : Attempt A) (s : Sockets) → (sockets_after a s).opened ≤ s.opened + 1
  unfolding sockets_after
  sockets_after-opened (refused exc) s = omega arith
  sockets_after-opened (waits events) s = omega arith
  sockets_after-opened (is_cancelled events) s = omega arith

  went_on-opened :
      (a : Attempt A) (s : Sockets) → ends a ≡ none → (sockets_after a s).opened ≡ s.opened + 1
  unfolding ends sockets_after
  went_on-opened (refused exc) s h = ground arith
  went_on-opened (waits events) s h = refl
  went_on-opened (is_cancelled events) s h = refl

  module _ (network : ℕ → Attempt A) where
    turns-IsClean : (left n : ℕ) (s : Sockets) → IsClean s → IsClean (turns network left n s).1
    unfolding turns
    turns-IsClean zero n s h = h
    turns-IsClean (suc left) n s h =
        let clean = sockets_after-IsClean (network n) s h in
        elim (Option-cases (ends (network n))) [
          | inl e ↦ rw (e, turns) (turns-IsClean left (n + 1) (sockets_after (network n) s) clean)
          | inr e ↦ rw (e.1, turns) clean
        ]

    turns-opened : (left n : ℕ) (s : Sockets) → (turns network left n s).1.opened ≤ s.opened + left
    unfolding turns
    turns-opened zero n s = omega arith
    turns-opened (suc left) n s =
        let one = sockets_after-opened (network n) s in
        let more = turns-opened left (n + 1) (sockets_after (network n) s) in
        elim (Option-cases (ends (network n))) [
          | inl e ↦ rw (e, turns) (omega (arith, one, more))
          | inr e ↦ rw (e.1, turns) (omega (arith, one))
        ]

    turns-answer :
        (left n i : ℕ) (r : Sent A) (s : Sockets)
        → n ≤ i
        → i < n + left
        → ((j : ℕ) → n ≤ j → j < i → ends (network j) ≡ none)
        → ends (network i) ≡ some r
        → (turns network left n s).0 ≡ r
    unfolding turns
    turns-answer zero n i r s low high before e = absurd (omega (arith, low, high))
    turns-answer (suc left) n i r s low high before e = elim (le-cases n i low) [
      | inl lt ↦
          rw (before n (omega arith) lt, turns)
            (turns-answer left (n + 1) i r (sockets_after (network n) s) (omega (arith, lt))
              (omega (arith, high)) (λ j lo hi. before j (omega (arith, lo)) hi) e)
      | inr eq ↦ rw (ap (λ k. ends (network k)) eq ∙ e, turns) refl
    ]

    turns-silent :
        (left n : ℕ) (s : Sockets)
        → ((j : ℕ) → n ≤ j → j < n + left → ends (network j) ≡ none)
        → ((turns network left n s).0 ≡ raised snmp_error)
          × ((turns network left n s).1.opened ≡ s.opened + left)
    unfolding turns
    turns-silent zero n s h = (refl, omega arith)
    turns-silent (suc left) n s h =
        let here = h n (omega arith) (omega arith) in
        let rest =
          turns-silent left (n + 1) (sockets_after (network n) s)
            (λ j lo hi. h j (omega (arith, lo)) (omega (arith, hi))) in
        let one = went_on-opened (network n) s here in
        (rw (here, turns) rest.0, rw (here, turns) (omega (arith, rest.1, one)))

    -- An exchange ends as its first attempt that does not time out: with its reply, or with its error.
    pub send_udp-first :
        (retries : ℕ) (s : Sockets) (i : ℕ) (r : Sent A)
        → i < attempts retries
        → ((j : ℕ) → j < i → ends (network j) ≡ none)
        → ends (network i) ≡ some r
        → (send_udp network retries s).0 ≡ r
    unfolding send_udp
    send_udp-first retries s i r lt before e =
        turns-answer (attempts retries) 0 i r s (omega arith) (omega (arith, lt))
          (λ j lo hi. before j hi) e

    -- If all attempts time out, an exchange raises puresnmp's timeout after all of them, one at least.
    pub send_udp-silent :
        (retries : ℕ) (s : Sockets)
        → ((j : ℕ) → j < attempts retries → ends (network j) ≡ none)
        → ((send_udp network retries s).0 ≡ raised snmp_error)
          × ((send_udp network retries s).1.opened ≡ s.opened + attempts retries)
    unfolding send_udp
    send_udp-silent retries s h =
        turns-silent (attempts retries) 0 s (λ j lo hi. h j (omega (arith, hi)))

    -- The first datagram is the reply, whatever callbacks come after it.
    pub reply-ends :
        (a : A) (late : List (Event A)) → ends (waits (datagram_received a ∷ late)) ≡ some (reply a)
    unfolding ends deliver_all deliver wait
    reply-ends a late = rw (deliver_all-settled late a) refl

    -- However an exchange ends, by a reply, an error or a cancellation, each socket that it opened is closed,
    -- and it opened at most as many as it has attempts.
    pub send_udp-IsClean :
        (retries : ℕ) (s : Sockets)
        → IsClean s
        → IsClean (send_udp network retries s).1
          × ((send_udp network retries s).1.opened ≤ s.opened + attempts retries)
    unfolding send_udp
    send_udp-IsClean retries s h =
        (turns-IsClean (attempts retries) 0 s h, turns-opened (attempts retries) 0 s)
