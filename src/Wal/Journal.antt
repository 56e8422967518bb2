-- ===== src/Wal/Journal.antt =====
-- The life of a log, from an empty directory on: writes, replays, truncations and restarts in any
-- order (internal/adapter/repository/wal/wal_repository.go).
pub mod Invariant
pub mod Kept
use watch_tower.Common.{
  ℕ, suc, ◌≤◌, ◌<◌, ◌≡◌, Option, none, some, List, [], ◌∷◌, ◌++◌, false, if◌then◌else◌, length,
  Text, ok, is_ok, Error, Op,
}
use watch_tower.Scanner.{max_token}
use watch_tower.Domain.{LogEvent}
use watch_tower.Domain.Codec.{Codec}
use watch_tower.Wal.Segments.{Wal, OpenEnv}
use watch_tower.Wal.Methods.{new_wal, WriteEnv, write, ReplayEnv, replay, TruncateEnv, truncate}
use watch_tower.Wal.Clock.{IsCurrent}
use watch_tower.Wal.Dated.{IsTimed}

-- A log at a time, and the events that were accepted since it was last emptied.
pub record Journal : Type 0 where
  pub clock : ℕ
  pub wal : Wal
  pub events : List LogEvent

-- One call of a method, with the answers of the operating system: any of them may be a failure, but
-- a write is not cut short, and no segment withstands its removal.
pub data Step {H : Type 0} (codec : Codec) (ctx_err : Op H Unit) (handler : LogEvent → Op H Unit)
    (j : Journal) : Journal → Type 0 where
  written :
      (env : WriteEnv) (event : LogEvent)
      → IsTimed j.clock env
      → env.short ≡ none
      → ((body : Text) → codec.marshal event ≡ ok body → length body < max_token)
      → Step codec ctx_err handler j (record {
        clock = suc env.after.now;
        wal = (write codec env event j.wal).1;
        events =
            if is_ok (write codec env event j.wal).0
            then j.events ++ codec.wire event ∷ []
            else j.events;
      })
  replayed :
      (env : ReplayEnv) (h : H)
      → Step codec ctx_err handler j
          (record j { wal = (replay codec ctx_err handler env (j.wal, h)).1.0 })
  truncated :
      (env : TruncateEnv)
      → env.read_dir ≡ none
      → ((n : Text) → env.keeps n ≡ false)
      → j.clock ≤ env.reopen.rotation.now
      → IsCurrent env.reopen.rotation.now
      → Step codec ctx_err handler j (record {
        clock = suc env.reopen.rotation.now;
        wal = (truncate env j.wal).1;
        events = [];
      })
  not_truncated :
      (env : TruncateEnv) (e : Error)
      → env.read_dir ≡ some e
      → Step codec ctx_err handler j (record j { wal = (truncate env j.wal).1 })
  restarted :
      (mkdir : Option Error) (env : OpenEnv) (max_segment max_total : ℕ) (w : Wal)
      → j.clock ≤ env.rotation.now
      → IsCurrent env.rotation.now
      → (new_wal mkdir env max_segment max_total j.wal.dir tt).0 ≡ ok w
      → Step codec ctx_err handler j (record j { clock = suc env.rotation.now; wal = w })

-- The states that a log gets into, from one that is opened on an empty directory.
pub data Reach {H : Type 0} (codec : Codec) (ctx_err : Op H Unit) (handler : LogEvent → Op H Unit)
    : Journal → Type 0 where
  created :
      (mkdir : Option Error) (env : OpenEnv) (max_segment max_total : ℕ) (w : Wal)
      → IsCurrent env.rotation.now
      → (new_wal mkdir env max_segment max_total [] tt).0 ≡ ok w
      → Reach codec ctx_err handler (record { clock = suc env.rotation.now; wal = w; events = [] })
  later :
      {j k : Journal}
      → Reach codec ctx_err handler j
      → Step codec ctx_err handler j k
      → Reach codec ctx_err handler k
