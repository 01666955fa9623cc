-- ===== src/Tests/Transport.antt =====
-- Exchanges with an agent that is slow, and walks of two columns.
use ha_sophos_fw.Prelude.{
  ℕ, zero, suc, ◌≤◌, ◌<◌, ◌+◌, String, ◌≡◌, refl, not, none, List, [], ◌∷◌, map, length, any_of,
  is_some, arith,
}
use ha_sophos_fw.Prelude.Dict
use ha_sophos_fw.Prelude.Dict.{Dict}
use ha_sophos_fw.SnmpClient.Udp.{
  Attempt, waits, datagram_received, connection_lost, Sockets, reply, send_udp, ends, attempts,
  timed_out, deliver, deliver_all, wait,
}
use ha_sophos_fw.SnmpClient.Udp.Laws.{IsClean, send_udp-first, send_udp-IsClean}
use ha_sophos_fw.SnmpClient.Operations
use ha_sophos_fw.SnmpClient.Operations.{
  Happening, interrupt, returns, done, all_or_nothing, walk_columns, ok, run, all_running, conclude,
  stop_at, finish, ended, results, first_failure, walked, merged,
}
use ha_sophos_fw.SnmpClient.Operations.Tasks.{is_running, all_or_nothing-settled}
use ha_sophos_fw.SnmpClient.Operations.Walks.{latest, walk_columns-whole}

-- The first packet is lost.
abbrev slow : ℕ → Attempt String
slow zero = waits []
slow n = waits (datagram_received "reply" ∷ connection_lost none ∷ [])

abbrev none_open : Sockets
none_open = record { opened = 0; sent = 0; closed = 0 }

lost : (j : ℕ) → j < 1 → ends (slow j) ≡ none
unfolding ends deliver_all wait
lost zero h = refl
lost (suc j) h = absurd (omega (arith, h))

send_udp-first_example : (send_udp slow 2 none_open).0 ≡ reply "reply"
unfolding ends deliver_all deliver wait
send_udp-first_example = send_udp-first slow 2 none_open 1 (reply "reply") (omega arith) lost refl

send_udp-IsClean_example :
    IsClean (send_udp slow 2 none_open).1
    × ((send_udp slow 2 none_open).1.opened ≤ none_open.opened + attempts 2)
send_udp-IsClean_example =
    send_udp-IsClean slow 2 none_open (record { all_sent = refl; all_closed = refl })

abbrev names : Dict String
names = ("1.2.1", "fan") ∷ []

abbrev speeds : Dict String
speeds = ("1.3.1", "900") ∷ []

abbrev names_and_speeds : Dict String
names_and_speeds = ("1.2.1", "fan") ∷ ("1.3.1", "900") ∷ []

-- The second column is walked first.
abbrev in_time : List (Happening (Dict String))
in_time = Operations.ends 1 (returns speeds) ∷ Operations.ends 0 (returns names) ∷ []

all_or_nothing-settled_example :
    is_some (all_or_nothing 2 (Operations.ends 1 (returns speeds) ∷ interrupt timed_out ∷ [])).0
    ≡ not (
        any_of is_running
          (all_or_nothing 2 (Operations.ends 1 (returns speeds) ∷ interrupt timed_out ∷ [])).1)
all_or_nothing-settled_example =
    all_or_nothing-settled 2 (Operations.ends 1 (returns speeds) ∷ interrupt timed_out ∷ [])

walk_columns-whole_example :
    (columns : List (Dict String)) × ((all_or_nothing 2 in_time).1 ≡ map done columns)
    × (length columns ≡ 2)
    × ((oid : String) → Dict.get oid names_and_speeds ≡ latest oid columns)
unfolding walk_columns all_or_nothing walked merged run all_running conclude stop_at finish ended
    results first_failure Dict.update Dict.put
walk_columns-whole_example = walk_columns-whole 2 in_time names_and_speeds refl
