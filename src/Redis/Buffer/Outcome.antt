-- ===== src/Redis/Buffer/Outcome.antt =====
-- Where an event goes that `BufferLog` is given
-- (internal/adapter/repository/redis/log_repository.go).
use watch_tower.Common.{
  ◌≡◌, ◌⊎◌, inl, inr, Bool, true, false, not, ◌&&◌, some, arith, Text, Done, Error, ok, err,
  Result-cases, Bool-cases, Option-cases, if◌then◌else◌,
}
use watch_tower.Domain.{LogEvent, WalRepository}
use watch_tower.Redis.Errors.{is_network_error}
use watch_tower.Redis.Buffer.{
  Repository, Shared, log_entry, buffer_log_to_redis, write_wal, buffer_while_down, lose_connection,
  after_redis, buffer_log, unavailable, became_unavailable, set_wal_active,
}

module _ {S : Type 0} (r : Repository S) (event : LogEvent) where
  -- The event was encoded, and XADD of the encoding led from `s` to `s'` without an error.
  abbrev pub InStream : S → S → Type 0
  InStream s s' =
      (payload : Text) × (r.codec.marshal event ≡ ok payload)
      × (r.client.x_add (log_entry payload) s ≡ (ok tt, s'))

  -- There is a WAL, and its Write led from `s` to `s'` without an error.
  abbrev pub InWal : S → S → Type 0
  InWal s s' = (wal : WalRepository S) × (r.wal ≡ some wal) × (wal.write event s ≡ (ok tt, s'))

  to_redis-InStream :
      (s : S)
      → (buffer_log_to_redis r event s).0 ≡ ok tt
      → InStream s (buffer_log_to_redis r event s).1
  unfolding buffer_log_to_redis
  to_redis-InStream s done = elim (Result-cases (r.codec.marshal event)) [
    | inr (e, refused) ↦ absurd (ground arith)
    | inl (payload, encoded) ↦ (payload, encoded, ground arith)
  ]

  write_wal-InWal :
      (missing : Error) (st : Shared S)
      → (write_wal r missing event st).0 ≡ ok tt
      → InWal st.world (write_wal r missing event st).1.world
  unfolding write_wal
  write_wal-InWal missing st done = elim (Option-cases r.wal) [
    | inl absent ↦ absurd (ground arith)
    | inr (wal, there) ↦ (wal, there, ground arith)
  ]

  while_down-InWal :
      (st : Shared S)
      → st.is_available ≡ false
      → (buffer_log r event st).0 ≡ ok tt
      → InWal st.world (buffer_log r event st).1.world
  unfolding buffer_log buffer_while_down
  while_down-InWal st down done = elim (Option-cases r.wal) [
    | inl absent ↦ absurd (ground arith)
    | inr (wal, there) ↦
        let st1 = set_wal_active r true st in
        let same : st1.world ≡ st.world = ground arith in
        let e : buffer_log r event st ≡ write_wal r unavailable event st1 = ground arith in
        let stored = write_wal-InWal unavailable st1 (rw e at done) in rw e (rw same at stored)
  ]

  up-InStream :
      (st : Shared S)
      → st.is_available ≡ true
      → (buffer_log_to_redis r event st.world).0 ≡ ok tt
      → InStream st.world (buffer_log r event st).1.world
  unfolding buffer_log after_redis
  up-InStream st up added =
      let e : (buffer_log r event st).1.world ≡ (buffer_log_to_redis r event st.world).1 =
        ground arith in
      rw e (to_redis-InStream st.world added)

  failover-InWal :
      (st : Shared S)
      → st.is_available ≡ true
      → (e : Error) → (buffer_log_to_redis r event st.world).0 ≡ err e
      → (buffer_log r event st).0 ≡ ok tt
      → (is_network_error e ≡ true)
        × InWal (buffer_log_to_redis r event st.world).1 (buffer_log r event st).1.world
  unfolding buffer_log after_redis lose_connection
  failover-InWal st up e failed done = elim (Bool-cases (is_network_error e)) [
    | inr other ↦ absurd (ground arith)
    | inl lost ↦
        let s1 = (buffer_log_to_redis r event st.world).1 in
        let st1 = lose_connection r (record st { world = s1 }) in
        let same : st1.world ≡ s1 = ground arith in
        let through : buffer_log r event st ≡ write_wal r (became_unavailable e) event st1 =
          ground arith in
        let stored = write_wal-InWal (became_unavailable e) st1 (rw through at done) in
        (lost, rw through (rw same at stored))
  ]

  -- `BufferLog` returns no error only if it stored the event: by an XADD while Redis counts as
  -- available, or by a write to the WAL, from the state in which it was called while Redis counts
  -- as down, and otherwise from the state behind an attempt to write to Redis that met a network
  -- error. The final state is that behind the store.
  pub buffer_log_stores :
      (st : Shared S)
      → (buffer_log r event st).0 ≡ ok tt
      → ((st.is_available ≡ true) × InStream st.world (buffer_log r event st).1.world)
        ⊎ ((st.is_available ≡ false) × InWal st.world (buffer_log r event st).1.world)
        ⊎ ((e : Error) × (st.is_available ≡ true)
            × ((buffer_log_to_redis r event st.world).0 ≡ err e)
            × (is_network_error e ≡ true)
            × InWal (buffer_log_to_redis r event st.world).1 (buffer_log r event st).1.world)
  buffer_log_stores st done = elim (Bool-cases st.is_available) [
    | inr down ↦ inr (inl (down, while_down-InWal st down done))
    | inl up ↦ elim (Result-cases (buffer_log_to_redis r event st.world).0) [
      | inl (_, added) ↦ inl (up, up-InStream st up added)
      | inr (e, failed) ↦
          let (lost, stored) = failover-InWal st up e failed done in
          inr (inr (e, up, failed, lost, stored))
    ]
  ]

  -- What the producer sees of an attempt to write to Redis, if a WAL stands behind it.
  abbrev pub visible : Done → Done
  visible (ok _) = ok tt
  visible (err e) = if is_network_error e then ok tt else err e

  abbrev pub is_lost : Done → Bool
  is_lost (ok _) = false
  is_lost (err e) = is_network_error e

  -- Where a call reaches the WAL, if it does: behind the attempt to write to Redis, if it makes one.
  abbrev pub before_wal : Shared S → S
  before_wal st = if st.is_available then (buffer_log_to_redis r event st.world).1 else st.world

  -- If there is a WAL, and it accepts the event in the state that the attempt to write to Redis
  -- leaves, or in that of the call where Redis counts as down, then `BufferLog` fails only where
  -- Redis counts as available and its error is no network error, and with that error. Afterwards
  -- Redis counts as available exactly if it did before and no network error was met.
  pub buffer_log-visible :
      (st : Shared S) (wal : WalRepository S)
      → r.wal ≡ some wal
      → (wal.write event (before_wal st)).0 ≡ ok tt
      → ((buffer_log r event st).0
          ≡ (if st.is_available then visible (buffer_log_to_redis r event st.world).0 else ok tt))
        × ((buffer_log r event st).1.is_available
            ≡ (st.is_available && not (is_lost (buffer_log_to_redis r event st.world).0)))
  unfolding buffer_log buffer_while_down write_wal after_redis lose_connection
  buffer_log-visible st wal there accepts = elim (Bool-cases st.is_available) [
    | inr down ↦ ground (arith, accepts)
    | inl up ↦ ground (arith, accepts)
  ]
