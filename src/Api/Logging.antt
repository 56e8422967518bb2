-- ===== src/Api/Logging.antt =====
-- internal/adapter/api/middleware/logging.go.
use watch_tower.Common.{ℕ, Bool, false, List, ◌∷◌}
use watch_tower.Api.Auth.{Reply, status, panicked}

-- A handler with the writer that it is given, of which it matters here whether it is a http.Flusher.
abbrev pub WriterHandler : Type 0 → Type 0
WriterHandler S = Bool → S → Reply × S

-- The line of the log, as far as it tells the status; a panic passes the call of the logger by.
abbrev pub log_status : Reply → List ℕ → List ℕ
log_status (status code) log = code ∷ log
log_status panicked log = log

-- The wrapper embeds the interface http.ResponseWriter, so whatever it wraps, its methods are
-- Header, Write and WriteHeader, and it is no http.Flusher.
abbrev pub wrapped_can_flush : Bool → Bool
wrapped_can_flush can_flush = false

unfoldable pub logging : {S : Type 0} → WriterHandler S → WriterHandler (S × List ℕ)
logging next can_flush (s, log) =
    let (reply, s1) = next (wrapped_can_flush can_flush) s in (reply, (s1, log_status reply log))
