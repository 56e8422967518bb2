-- ===== src/ApiKeys.antt =====
-- internal/adapter/repository/postgres/apikey_repository.go: a cache of the database's answers
-- with a time to live. The query is a parameter.
pub mod Cache
use watch_tower.Common.{
  ℕ, ◌+◌, Bool, true, false, Option, none, some, ltb, if◌then◌else◌, Text, Op, Result, ok, err,
}
use watch_tower.Common.Assoc.{Assoc, lookup, insert}

pub record CacheEntry : Type 0 where
  pub is_valid : Bool
  pub expires_at : ℕ

-- `query` is QueryRowContext(...).Scan(&isValid); `has_metrics` says that metrics is not nil.
pub record Repository (S : Type 0) : Type 0 where
  pub query : Text → Op S Bool
  pub cache_ttl : ℕ
  pub has_metrics : Bool

pub record State (S : Type 0) : Type 0 where
  pub cache : Assoc CacheEntry
  pub hits : ℕ
  pub misses : ℕ
  pub db : S

-- The three readings of the clock, and what other goroutines do to the cache while the call waits
-- for the write lock.
pub record Env : Type 0 where
  pub first : ℕ
  pub second : ℕ
  pub third : ℕ
  pub others : Assoc CacheEntry → Assoc CacheEntry

-- `found && time.Now().Before(entry.expiresAt)`, and then entry.isValid.
unfoldable pub live : ℕ → Option CacheEntry → Option Bool
live now none = none
live now (some e) = if ltb now e.expires_at then some e.is_valid else none

module _ {S : Type 0} (r : Repository S) where
  abbrev pub count_hit : State S → State S
  count_hit st = if r.has_metrics then record st { hits = st.hits + 1 } else st

  abbrev pub count_miss : State S → State S
  count_miss st = if r.has_metrics then record st { misses = st.misses + 1 } else st

  -- Steps 3 and 4: errors are not cached.
  unfoldable pub query_and_cache : ℕ → Text → Op (State S) Bool
  query_and_cache now key st =
      let (a, db) = r.query key st.db in
      elim a [
        | err e ↦ (err e, record st { db = db })
        | ok v ↦ (
          ok v,
          record st {
            db = db;
            cache = insert key (record { is_valid = v; expires_at = now + r.cache_ttl }) st.cache;
          },
        )
      ]

  -- Behind the write lock.
  unfoldable pub check_again : Env → Text → Op (State S) Bool
  unfolding live query_and_cache
  check_again env key st = elim (live env.second (lookup key st.cache)) [
    | some v ↦ (ok v, st)
    | none ↦ query_and_cache env.third key st
  ]

  unfoldable pub is_valid : Env → Text → Op (State S) Bool
  unfolding live check_again
  is_valid env key st = elim (live env.first (lookup key st.cache)) [
    | some v ↦ (ok v, count_hit st)
    | none ↦
        let missed = count_miss st in
        check_again env key (record missed { cache = env.others missed.cache })
  ]
