-- ===== src/Api/Stream.antt =====
-- ServeHTTP of internal/adapter/api/handler/sse_handler.go: one connection to the broker.
use watch_tower.Common.{ℕ, Bool, List, [], ◌∷◌, ◌++◌, if◌then◌else◌, Text, codes}
use watch_tower.Api.Sse.{Broker, add_client, remove_client}
use watch_tower.Api.Auth.{Reply, status}

-- What the select of the loop receives: the end of the request, a message, or the end of the channel.
pub data Signal : Type 0 where
  done : Signal
  message : Text → Signal
  closed : Signal

abbrev pub frame : Text → Text
frame msg = codes "data: " ++ (msg ++ 10 ∷ 10 ∷ [])

-- The loop: what it writes to the connection until it returns.
unfoldable pub forward : List Signal → Text
forward [] = []
forward (done ∷ signals) = []
forward (closed ∷ signals) = []
forward (message msg ∷ signals) = frame msg ++ forward signals

-- A connection whose writer can flush or not, with the name of its channel, what the loop receives,
-- and what the other goroutines do to the broker while it runs. The reply counts as 200 where the
-- handler writes a body without a status.
unfoldable pub serve_events :
    Bool → ℕ → List Signal → (Broker → Broker) → Broker → (Reply × Text) × Broker
unfolding forward
serve_events can_flush client signals others b =
    if can_flush
    then ((status 200, forward signals), (remove_client client (others (add_client client b))).0)
    else ((status 500, codes "Streaming unsupported!" ++ 10 ∷ []), b)
