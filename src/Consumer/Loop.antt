-- ===== src/Consumer/Loop.antt =====
-- cmd/consumer/main.go: the loop of the worker, which processes a batch at each tick until its
-- context ends.
pub mod Drained
use watch_tower.Common.{Bool, true, false, List, [], ◌∷◌}
use watch_tower.Consumer.{ProcessLogs, process_batch}

-- Which case of the select runs.
pub data Turn : Type 0 where
  tick : Turn
  done : Turn

-- The turns that the loop takes, up to the first end of the context; the Boolean says that it
-- returned. What ProcessBatch returns is only logged.
unfoldable pub work : {S : Type 0} → ProcessLogs S → List Turn → S → Bool × S
work u [] s = (false, s)
work u (done ∷ turns) s = (true, s)
work u (tick ∷ turns) s = let (_, s1) = process_batch u s in work u turns s1
