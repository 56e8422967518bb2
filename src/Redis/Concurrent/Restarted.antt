-- ===== src/Redis/Concurrent/Restarted.antt =====
-- What a restart makes of the world (cmd/ingest/main.go and
-- internal/adapter/repository/redis/log_repository.go).
use watch_tower.Common.{◌≡◌, arith, Text, codes, Result-cases, inl, inr}
use watch_tower.Redis.Buffer.{Repository, log_stream_key, new_log_repository, setup_consumer_group}

module _ {H : Type 0} (r : Repository H) where
  pub new_world :
      (group : Text) (h : H)
      → (new_log_repository r group h).world
        ≡ (r.client.x_group_create_mk_stream log_stream_key group (codes "0") h).1
  unfolding new_log_repository setup_consumer_group
  new_world group h =
      elim (Result-cases (r.client.x_group_create_mk_stream log_stream_key group (codes "0") h).0) [
        | inl (tt, done) ↦ ground arith
        | inr (x, refused) ↦ ground arith
      ]
