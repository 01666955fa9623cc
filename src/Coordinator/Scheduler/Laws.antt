-- ===== src/Coordinator/Scheduler/Laws.antt =====
-- When an endpoint is due.
use ha_sophos_fw.Prelude.{
  ℕ, ◌+◌, ◌*◌, ◌≤◌, ◌<◌, String, ◌≡◌, ◌⊎◌, true, Option, arith, ◌==◌, eq_iff, eq_refl, leb, eqb,
  if◌then◌else◌,
}
use ha_sophos_fw.Prelude.Dict.{get-put, get-pop}
use ha_sophos_fw.Coordinator.Scheduler.{
  Tier, realtime, OptionValue, int_option, read_intervals, base_of, Scheduler, init, is_due,
  mark_fetched, invalidate,
}

-- Before its first successful fetch, and after it was invalidated, an endpoint is due at any time;
-- invalidating it changes nothing for the others.
pub is_due-invalidate :
    (s : Scheduler) (key other : String) (tier : Tier) (now : ℕ)
    → is_due (invalidate key s) other tier now
      ≡ (if key == other then true else is_due s other tier now)
unfolding is_due invalidate
is_due-invalidate s key other tier now = ground (arith, get-pop key other s.last, eq_iff key other)

-- After a fetch the endpoint is due once its interval, less half a base interval, has passed; a fetch
-- changes nothing for the others.
pub is_due-mark_fetched :
    (s : Scheduler) (key other : String) (tier : Tier) (at now : ℕ)
    → is_due (mark_fetched key at s) other tier now ≡ (
        if key == other
        then leb (at + 1000 * s.intervals tier) (now + 500 * s.base_interval)
        else is_due s other tier now)
unfolding is_due mark_fetched
is_due-mark_fetched s key other tier at now =
    ground (arith, get-put key other at s.last, eq_iff key other)

in_time :
    (at now drift base : ℕ)
    → (now + drift ≡ at + 1000 * base) ⊎ (now ≡ at + 1000 * base + drift)
    → 2 * drift < 1000 * base
    → {n : ℕ} → n ≤ base
    → leb (at + 1000 * n) (now + 500 * base) ≡ true
in_time at now drift base late small h = ground arith

base_le :
    (o : Option OptionValue)
    → int_option o 30 ≤ (if eqb (int_option o 30) 0 then 30 else int_option o 30)
base_le o = ground arith

-- With runs a base interval apart, each late or early by less than half of it, a realtime endpoint that
-- was fetched in one run is due in the next.
pub is_due-realtime :
    (options : Tier → Option OptionValue) (key : String) (at now drift : ℕ)
    → let s = init (read_intervals options) in
      (now + drift ≡ at + 1000 * s.base_interval) ⊎ (now ≡ at + 1000 * s.base_interval + drift)
      → 2 * drift < 1000 * s.base_interval
      → is_due (mark_fetched key at s) key realtime now ≡ true
unfolding init base_of read_intervals
is_due-realtime options key at now drift late small =
    let s = init (read_intervals options) in
    rw (is_due-mark_fetched s key key realtime at now, eq_refl key)
      (in_time at now drift s.base_interval late small (base_le (options realtime)))
