-- ===== src/Api/Sse.antt =====
-- internal/adapter/api/handler/sse_handler.go: the broker as a state and one function for each thing
-- that a goroutine does to it. Each of them takes the mutex or one operation on a channel.
pub mod Conserved
use watch_tower.Common.{
  ℕ, zero, ◌+◌, ◌-◌, Bool, true, false, List, [], ◌∷◌, ◌++◌, ltb, ◌==◌, if◌then◌else◌, length, keep,
  not,
}

-- The capacity of the channel eventCounter.
abbrev pub counter_capacity : ℕ
counter_capacity = 1000

-- Clients are named by numbers, as their channels are by addresses. `counter` holds what is in the
-- channel, the oldest first; the last two fields are the variables of `run`.
pub record Broker : Type 0 where
  pub clients : List ℕ
  pub counter : List ℕ
  pub current_count : ℕ
  pub last_timestamp : ℕ

-- The rate of a message as a fraction that is not rounded: `count` events in `duration` nanoseconds,
-- where the program has float64 and seconds.
pub record Rate : Type 0 where
  pub count : ℕ
  pub duration : ℕ

unfoldable pub new_broker : ℕ → Broker
new_broker now = record { clients = []; counter = []; current_count = 0; last_timestamp = now }

-- A report is dropped where the channel is full.
unfoldable pub report_events : ℕ → Broker → Broker
report_events n b =
    if ltb (length b.counter) counter_capacity
    then record b { counter = b.counter ++ n ∷ [] }
    else b

abbrev pub without : ℕ → List ℕ → List ℕ
without c = keep (λ x. not (x == c))

unfoldable pub add_client : ℕ → Broker → Broker
add_client c b = record b { clients = c ∷ without c b.clients }

unfoldable pub has_client : ℕ → List ℕ → Bool
has_client c [] = false
has_client c (x ∷ xs) = let rest = has_client c xs in if x == c then true else rest

-- The second result says that the channel is closed by this call.
unfoldable pub remove_client : ℕ → Broker → Broker × Bool
unfolding has_client
remove_client c b =
    if has_client c b.clients
    then (record b { clients = without c b.clients }, true)
    else (b, false)

-- The clients that get a message: those that wait at their channel, which has no buffer.
unfoldable pub broadcast : (ℕ → Bool) → Broker → List ℕ
broadcast ready b = keep ready b.clients

unfoldable pub receive_from : List ℕ → Broker → Broker
receive_from [] b = b
receive_from (n ∷ ns) b = record b { counter = ns; current_count = b.current_count + n }

-- The case of `run` for a report; with none in the channel the case does not run.
unfoldable pub receive : Broker → Broker
unfolding receive_from
receive b = receive_from b.counter b

-- The quotient, and 0.0 where no time has passed.
unfoldable pub rate_over : (count duration : ℕ) → Rate
rate_over count duration =
    if ltb 0 duration
    then record { count = count; duration = duration }
    else record { count = 0; duration = 1 }

-- The case of `run` for the ticker: the rate, who gets it, and the reset.
unfoldable pub tick : ℕ → (ℕ → Bool) → Broker → Broker × Rate × List ℕ
unfolding broadcast rate_over
tick now ready b = (
  record b { last_timestamp = now; current_count = 0 },
  rate_over b.current_count (now - b.last_timestamp),
  broadcast ready b,
)
