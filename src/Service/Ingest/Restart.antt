-- ===== src/Service/Ingest/Restart.antt =====
-- What a restart of the ingest service makes of the WAL (cmd/ingest/main.go and the health check of
-- internal/adapter/repository/redis/log_repository.go).
use watch_tower.Common.{
  ℕ, zero, suc, ◌≡◌, refl, sym, ap, ◌∙◌, true, none, some, Option, List, arith, Error, ok,
  Result-cases, inl, inr,
}
use mathlib.Core.Path.{subst}
use watch_tower.Domain.{LogEvent}
use watch_tower.Domain.Codec.{CodecLaws}
use watch_tower.Config.{Config, load}
use watch_tower.Wal.Files.{Dir, segment_name}
use watch_tower.Wal.Segments.{Wal, OpenEnv}
use watch_tower.Wal.Methods.{new_wal}
use watch_tower.Wal.Removal.{IsDistinct}
use watch_tower.Wal.Log.{IsFresh}
use watch_tower.Wal.Log.RoundTrip.{Holds}
use watch_tower.Wal.Opened.{new_wal-Holds}
use watch_tower.Redis.Drain.{World, Answers, wal_repository}
use watch_tower.Redis.Health.{pings, AllAnswered, health_ticks-idle, start_health_check}
use watch_tower.Api.Ingest.{State}
use watch_tower.Service.Ingest.{
  Libraries, Plant, Startup, exited, serving, repository, assemble, open_log, main,
}

abbrev wal_of : {O H D : Type 0} → Startup O H D → Option Wal
wal_of (exited _ _) = none
wal_of (serving _ _ st) = some st.world.1.world.1

module _ {O V H D : Type 0} (lib : Libraries O V H D) (laws : CodecLaws lib.codec) where
  open_log-wal :
      (mkdir : Option Error) (env : OpenEnv) (dir : Dir) (cfg : Config) (options : O) (h : H)
      (d : D) (w : Wal)
      → wal_of (open_log lib mkdir env dir cfg options h d) ≡ some w
      → (new_wal mkdir env cfg.wal_segment_size cfg.wal_max_disk_size dir tt).0 ≡ ok w
  unfolding open_log assemble
  open_log-wal mkdir env dir cfg options h d w started =
      elim (Result-cases (new_wal mkdir env cfg.wal_segment_size cfg.wal_max_disk_size dir tt).0) [
        | inl (v, opened) ↦ ground arith
        | inr (e, failed) ↦ absurd (ground arith)
      ]

  -- Main gets to its servers only with a log that was opened, with some configuration.
  main-wal :
      (mkdir : Option Error) (env : OpenEnv) (dir : Dir) (h : H) (d : D) (w : Wal)
      → wal_of (main lib mkdir env dir h d) ≡ some w
      → (max_segment max_total : ℕ) × ((new_wal mkdir env max_segment max_total dir tt).0 ≡ ok w)
  unfolding main load
  main-wal mkdir env dir h d w started =
      let (c, h1) = lib.parse (lib.load_file h) in
      elim (Result-cases c) [
        | inr (e, failed) ↦ absurd (ground arith)
        | inl (cfg, loaded) ↦
            let (o, d1) = lib.open_db cfg.postgres_url d in
            elim (Result-cases o) [
              | inr (e, failed) ↦ absurd (ground arith)
              | inl (_, connected) ↦ elim (Result-cases (lib.parse_url cfg.redis_addr)) [
                | inr (e, failed) ↦ absurd (ground arith)
                | inl (options, parsed) ↦ (
                  cfg.wal_segment_size,
                  cfg.wal_max_disk_size,
                  open_log-wal mkdir env dir cfg options h1 d1 w (ground arith),
                )
              ]
            ]
      ]

  pings-wal :
      (cfg : Config) (options : O) (answers : Answers) (n : ℕ) (s : World H)
      → (pings (repository lib cfg options answers) n s).1 ≡ s.1
  unfolding pings
  pings-wal cfg options answers zero s = refl
  pings-wal cfg options answers (suc n) s =
      pings-wal cfg options answers n ((repository lib cfg options answers).client.ping s).1

  -- A WAL from before a restart is kept, and not replayed: if the directory that main starts with
  -- holds certain events, with no two entries of one name and none of the name or of a later one than
  -- a new segment gets, main gets to its servers, and Redis is taken for available there, then after
  -- any number of ticks of the health check, whose pings are all answered, the WAL holds the same
  -- events still.
  pub restart_strands :
      (mkdir : Option Error) (env : OpenEnv) (old : Wal) (es : List LogEvent) (h : H) (d : D)
      (cfg : Config) (options : O) (st : State (Plant H D)) (answers : Answers) (n : ℕ)
      → Holds lib.codec laws old es
      → IsDistinct old.dir
      → IsFresh (segment_name env.rotation.now) old.dir
      → main lib mkdir env old.dir h d ≡ serving cfg options st
      → st.world.1.is_available ≡ true
      → AllAnswered (repository lib cfg options answers) n st.world.1.world
      → Holds lib.codec laws
          (start_health_check (repository lib cfg options answers) n st.world.1).world.1
          es
  unfolding start_health_check
  restart_strands mkdir env old es h d cfg options st answers n holds distinct fresh started up
        answered =
      let (max_segment, max_total, opened) =
        main-wal mkdir env old.dir h d st.world.1.world.1 (ap wal_of started) in
      let kept =
        new_wal-Holds lib.codec laws old es mkdir env max_segment max_total st.world.1.world.1 holds
          distinct fresh opened in
      let r = repository lib cfg options answers in
      let idle =
        health_ticks-idle r n (wal_repository lib.codec lib.ctx_err answers) st.world.1 up
          answered in
      let same = ap (λ q. q.world.1) idle ∙ pings-wal cfg options answers n st.world.1.world in
      subst (λ w. Holds lib.codec laws w es) (sym same) kept
