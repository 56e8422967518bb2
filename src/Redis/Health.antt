-- ===== src/Redis/Health.antt =====
-- StartHealthCheck (internal/adapter/repository/redis/log_repository.go): one turn of its loop for
-- each tick, as a step that other goroutines do not interrupt.
use watch_tower.Common.{
  ◌≡◌, refl, ℕ, zero, suc, true, false, not, ◌&&◌, ◌||◌, none, some, arith, if◌then◌else◌, ok, err,
  is_ok,
}
use watch_tower.Domain.{WalRepository}
use watch_tower.Redis.Buffer.{Repository, Shared, set_wal_active, set_available, replay_wal}

module _ {S : Type 0} (r : Repository S) where
  -- `if err := r.ReplayWAL(ctx); err != nil { ... } else { ... }`
  unfoldable pub recover : WalRepository S → Shared S → Shared S
  recover wal st =
      let (e, s1) = replay_wal r wal st.world in
      elim e [
        | err _ ↦ record st { world = s1 }
        | ok _ ↦ record st { world = s1; is_available = true }
      ]

  -- The case of the ticker.
  unfoldable pub health_tick : WalRepository S → Shared S → Shared S
  unfolding recover
  health_tick wal st =
      let (e, s1) = r.client.ping st.world in
      let st1 = record st { world = s1 } in
      if is_ok e && not st.is_available
      then recover wal (set_wal_active r false st1)
      else if not (is_ok e) && st.is_available
      then set_wal_active r true (set_available false st1)
      else st1

  -- The loop over a number of ticks, until ctx.Done().
  unfoldable pub health_ticks : ℕ → WalRepository S → Shared S → Shared S
  health_ticks zero wal st = st
  health_ticks (suc n) wal st = health_ticks n wal (health_tick wal st)

  -- Without a WAL the loop does not start.
  unfoldable pub start_health_check : ℕ → Shared S → Shared S
  unfolding health_ticks
  start_health_check ticks st = elim r.wal [ none ↦ st | some wal ↦ health_ticks ticks wal st ]

  -- After a tick Redis counts as available exactly if it answered the ping and, where it counted as
  -- down before, the WAL was then replayed and truncated without an error.
  pub health_tick-is_available :
      (wal : WalRepository S) (st : Shared S)
      → (health_tick wal st).is_available ≡ (
          is_ok (r.client.ping st.world).0
          && (st.is_available || is_ok (replay_wal r wal (r.client.ping st.world).1).0))
  unfolding health_tick
  health_tick-is_available wal st = ground arith

  -- The pings of a number of ticks.
  unfoldable pub pings : ℕ → S → S
  pings zero s = s
  pings (suc n) s = pings n (r.client.ping s).1

  abbrev pub AllAnswered : ℕ → S → Type 0
  AllAnswered zero s = Unit
  AllAnswered (suc n) s = ((r.client.ping s).0 ≡ ok tt) × AllAnswered n (r.client.ping s).1

  -- While Redis counts as available and answers each ping, the health check does nothing but ping:
  -- what is in the WAL stays there.
  pub health_ticks-idle :
      (n : ℕ) (wal : WalRepository S) (st : Shared S)
      → st.is_available ≡ true
      → AllAnswered n st.world
      → health_ticks n wal st ≡ record st { world = pings n st.world }
  unfolding health_ticks pings health_tick
  health_ticks-idle zero wal st up answered = refl
  health_ticks-idle (suc n) wal st up answered =
      let s1 = (r.client.ping st.world).1 in
      let e : health_tick wal st ≡ record st { world = s1 } = ground (arith, answered.0) in
      rw e (health_ticks-idle n wal (record st { world = s1 }) up answered.1)
