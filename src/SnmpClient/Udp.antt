-- ===== src/SnmpClient/Udp.antt =====
-- One exchange on a UDP socket (snmp_client.py: _UDPRequest), its retries (_send_udp), and the kinds of
-- exceptions that the client tells apart (_is_transport_error). What happens on the network is a
-- parameter: for each attempt, whether a socket is opened and which callbacks asyncio then makes.
pub mod Laws
use ha_sophos_fw.Prelude.{
  ℕ, zero, suc, ◌+◌, Bool, true, false, ltb, if◌then◌else◌, Option, none, some, List, [], ◌∷◌,
  arith,
}

-- An exception by what the client asks of it: TimeoutError, another OSError, SnmpError, X690Error,
-- CancelledError, or any other.
pub data Failure : Type 0 where
  timed_out os_error snmp_error undecodable cancelled other : Failure

-- `_is_transport_error`
unfoldable pub is_transport_error : Failure → Bool
is_transport_error cancelled = false
is_transport_error other = false
is_transport_error f = true

-- A future.
pub data Future (A : Type 0) : Type 0 where
  pending : Future A
  result : A → Future A
  exception : Failure → Future A

-- The callbacks after `connection_made`; `lost` without an exception is a socket that was closed.
pub data Event (A : Type 0) : Type 0 where
  datagram_received : A → Event A
  error_received : Failure → Event A
  connection_lost : Option Failure → Event A

-- What happens in one attempt: no socket is opened; or the packet is sent, the events are delivered, and
-- if no one of them settles the response, the attempt ends by its timeout or by a cancellation.
pub data Attempt (A : Type 0) : Type 0 where
  refused : Failure → Attempt A
  waits : List (Event A) → Attempt A
  is_cancelled : List (Event A) → Attempt A

-- The sockets of an exchange.
pub record Sockets : Type 0 where
  pub opened : ℕ
  pub sent : ℕ
  pub closed : ℕ

pub data Sent (A : Type 0) : Type 0 where
  reply : A → Sent A
  raised : Failure → Sent A

-- `max(retries, 1)`
abbrev pub attempts : ℕ → ℕ
attempts retries = if ltb 1 retries then retries else 1

module _ {A : Type 0} where
  -- A callback settles the response once.
  unfoldable pub deliver : Event A → Future A → Future A
  deliver (datagram_received answer) pending = result answer
  deliver (error_received exc) pending = exception exc
  deliver (connection_lost (some exc)) pending = exception exc
  deliver event response = response

  unfoldable pub deliver_all : List (Event A) → Future A → Future A
  unfolding deliver
  deliver_all [] response = response
  deliver_all (event ∷ events) response = deliver_all events (deliver event response)

  -- `await protocol.response` inside `asyncio.timeout`: none is the `continue` of a TimeoutError.
  unfoldable pub wait : Failure → Future A → Option (Sent A)
  wait timed_out pending = none
  wait end pending = some (raised end)
  wait end (result answer) = some (reply answer)
  wait end (exception timed_out) = none
  wait end (exception exc) = some (raised exc)

  -- How one turn of the loop ends; none if it goes on.
  unfoldable pub ends : Attempt A → Option (Sent A)
  unfolding deliver_all wait
  ends (refused exc) = some (raised exc)
  ends (waits events) = wait timed_out (deliver_all events pending)
  ends (is_cancelled events) = wait cancelled (deliver_all events pending)

  -- The socket of a turn is opened, the packet is sent, and the socket is closed in `finally`.
  unfoldable pub sockets_after : Attempt A → Sockets → Sockets
  sockets_after (refused exc) s = s
  sockets_after tried s = record { opened = s.opened + 1; sent = s.sent + 1; closed = s.closed + 1 }

  module _ (network : ℕ → Attempt A) where
    -- `left` turns from the turn `n` on.
    unfoldable pub turns : ℕ → ℕ → Sockets → Sent A × Sockets
    unfolding ends sockets_after
    turns zero n s = (raised snmp_error, s)
    turns (suc left) n s =
        let sockets = sockets_after (network n) s in
        let again = turns left (n + 1) sockets in
        elim (ends (network n)) [ none ↦ again | some sent ↦ (sent, sockets) ]

    -- `_send_udp`
    unfoldable pub send_udp : ℕ → Sockets → Sent A × Sockets
    unfolding turns
    send_udp retries s = turns (attempts retries) 0 s
