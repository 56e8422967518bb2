-- ===== src/Api/Sse/Conserved.antt =====
-- Where the events go that were reported (internal/adapter/api/handler/sse_handler.go).
use watch_tower.Common.{
  ℕ, ◌+◌, ◌≡◌, refl, ap, Bool, List, [], ◌∷◌, ◌++◌, arith, ltb, leb, if◌then◌else◌, length,
}
use watch_tower.Api.Sse.{
  Broker, counter_capacity, report_events, add_client, remove_client, receive_from, receive,
  rate_over, tick,
}

-- What can happen to a broker, in the order in which its goroutines do it.
pub data Event : Type 0 where
  report : ℕ → Event
  take_report : Event
  ticks : ℕ → (ℕ → Bool) → Event
  connect : ℕ → Event
  disconnect : ℕ → Event

pub step : Event → Broker → Broker
step (report n) b = report_events n b
step take_report b = receive b
step (ticks now ready) b = (tick now ready b).0
step (connect c) b = add_client c b
step (disconnect c) b = (remove_client c b).0

pub run : List Event → Broker → Broker
run [] b = b
run (e ∷ es) b = run es (step e b)

pub sum : List ℕ → ℕ
sum [] = 0
sum (n ∷ ns) = n + sum ns

-- The events of the reports that found room in the channel.
pub accepted : List Event → Broker → ℕ
accepted [] b = 0
accepted (report n ∷ es) b =
    (if ltb (length b.counter) counter_capacity then n else 0) + accepted es (step (report n) b)
accepted (e ∷ es) b = accepted es (step e b)

-- The events in the rates that were broadcast.
pub broadcasted : List Event → Broker → ℕ
broadcasted [] b = 0
broadcasted (ticks now ready ∷ es) b =
    (tick now ready b).1.count + broadcasted es (step (ticks now ready) b)
broadcasted (e ∷ es) b = broadcasted es (step e b)

-- The events that were counted when a tick came at the time of the one before, or of the start.
pub discarded : List Event → Broker → ℕ
discarded [] b = 0
discarded (ticks now ready ∷ es) b =
    (if leb now b.last_timestamp then b.current_count else 0)
    + discarded es (step (ticks now ready) b)
discarded (e ∷ es) b = discarded es (step e b)

-- What is on its way: in the channel and in the count of `run`.
abbrev pub pending : Broker → ℕ
pending b = sum b.counter + b.current_count

sum-append : (xs ys : List ℕ) → sum (xs ++ ys) ≡ sum xs + sum ys
unfolding sum
sum-append [] ys = omega arith
sum-append (x ∷ xs) ys = omega (arith, sum-append xs ys)

pending-report_events :
    (n : ℕ) (b : Broker)
    → pending (report_events n b)
      ≡ pending b + (if ltb (length b.counter) counter_capacity then n else 0)
unfolding report_events sum
pending-report_events n b = ground (arith, sum-append b.counter (n ∷ []))

pending-receive_from :
    (ns : List ℕ) (b : Broker) → b.counter ≡ ns → pending (receive_from ns b) ≡ pending b
unfolding receive_from sum
pending-receive_from [] b h = refl
pending-receive_from (n ∷ ns) b h = omega (arith, ap sum h)

pending-receive : (b : Broker) → pending (receive b) ≡ pending b
unfolding receive
pending-receive b = pending-receive_from b.counter b refl

pending-tick :
    (now : ℕ) (ready : ℕ → Bool) (b : Broker)
    → (tick now ready b).1.count
        + (if leb now b.last_timestamp then b.current_count else 0)
        + pending (tick now ready b).0
      ≡ pending b
unfolding tick rate_over
pending-tick now ready b = ground arith

pending-remove_client : (c : ℕ) (b : Broker) → pending (remove_client c b).0 ≡ pending b
unfolding remove_client
pending-remove_client c b = ground arith

-- After any sequence of reports, receipts, ticks, connections and disconnections, the events that
-- were reported and found room in the channel are those in the rates that were broadcast, those that
-- were discarded by ticks before which no time had passed, and those still pending, less what was
-- pending before.
pub run-conserves :
    (es : List Event) (b : Broker)
    → pending b + accepted es b ≡ broadcasted es b + discarded es b + pending (run es b)
unfolding run accepted broadcasted discarded step add_client
run-conserves [] b = omega arith
run-conserves (report n ∷ es) b =
    omega (arith, pending-report_events n b, run-conserves es (report_events n b))
run-conserves (take_report ∷ es) b = omega (arith, pending-receive b, run-conserves es (receive b))
run-conserves (ticks now ready ∷ es) b =
    omega (arith, pending-tick now ready b, run-conserves es (tick now ready b).0)
run-conserves (connect c ∷ es) b = omega (arith, run-conserves es (add_client c b))
run-conserves (disconnect c ∷ es) b =
    omega (arith, pending-remove_client c b, run-conserves es (remove_client c b).0)
