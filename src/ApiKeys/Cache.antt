-- ===== src/ApiKeys/Cache.antt =====
-- When the cache answers, and with what
-- (internal/adapter/repository/postgres/apikey_repository.go).
use watch_tower.Common.{
  ℕ, ◌+◌, ◌≤◌, ◌≡◌, refl, Bool, none, some, arith, ltb, if◌then◌else◌, Text, text_eq_refl, ok, err,
  Error,
}
use watch_tower.Common.Assoc.{Assoc, lookup, insert, lookup-insert}
use watch_tower.ApiKeys.{
  CacheEntry, Repository, State, Env, live, query_and_cache, check_again, is_valid,
}

-- No other goroutine touches the cache while the call waits for the lock.
abbrev pub IsAlone : Env → Type 0
IsAlone env = (c : Assoc CacheEntry) → env.others c ≡ c

module _ {S : Type 0} (r : Repository S) where
  -- Where the cache holds no live entry for the key, before and behind the lock, the call asks the
  -- database.
  asks_database :
      (env : Env) (key : Text) (st : State S)
      → live env.first (lookup key st.cache) ≡ none
      → live env.second (lookup key (env.others st.cache)) ≡ none
      → ((is_valid r env key st).0 ≡ (r.query key st.db).0)
        × ((is_valid r env key st).1.db ≡ (r.query key st.db).1)
  unfolding is_valid check_again query_and_cache
  asks_database env key st a b = ground arith

  entry_is_stored :
      (env : Env) (key : Text) (st : State S) (v : Bool)
      → live env.first (lookup key st.cache) ≡ none
      → live env.second (lookup key (env.others st.cache)) ≡ none
      → (r.query key st.db).0 ≡ ok v
      → lookup key (is_valid r env key st).1.cache
        ≡ some (record { is_valid = v; expires_at = env.third + r.cache_ttl })
  unfolding is_valid check_again query_and_cache
  entry_is_stored env key st v miss miss_again answer =
      let entry : CacheEntry = record { is_valid = v; expires_at = env.third + r.cache_ttl } in
      let e : (is_valid r env key st).1.cache ≡ insert key entry (env.others st.cache) =
        ground arith in
      rw e (rw (lookup-insert key key entry (env.others st.cache), text_eq_refl key) refl)

  -- The result of a call, and the database behind it, where an answer `v` lives until `until`.
  abbrev pub Answers : Env → Text → State S → Bool → ℕ → Type 0
  Answers env key st v until =
      ((is_valid r env key st).0 ≡ (if ltb env.first until then ok v else (r.query key st.db).0))
      × ((is_valid r env key st).1.db
          ≡ (if ltb env.first until then st.db else (r.query key st.db).1))

  entry-Answers :
      (env : Env) (key : Text) (st : State S) (v : Bool) (until : ℕ)
      → lookup key st.cache ≡ some (record { is_valid = v; expires_at = until })
      → IsAlone env
      → env.first ≤ env.second
      → Answers env key st v until
  unfolding is_valid check_again query_and_cache live
  entry-Answers env key st v until stored alone forward = ground (arith, alone st.cache)

  -- After the database answered for a key at a time t3, with no live entry in the cache, the next
  -- call for the key, from a goroutine that waits for no other, gives the same answer without the
  -- database as long as its first reading of the clock is below t3 + ttl, and asks the database
  -- again from then on, if the clock does not go back within the call.
  pub answer_is_cached :
      (env later : Env) (key : Text) (st : State S) (v : Bool)
      → live env.first (lookup key st.cache) ≡ none
      → live env.second (lookup key (env.others st.cache)) ≡ none
      → (r.query key st.db).0 ≡ ok v
      → IsAlone later
      → later.first ≤ later.second
      → Answers later key (is_valid r env key st).1 v (env.third + r.cache_ttl)
  answer_is_cached env later key st v miss miss_again answer alone forward =
      entry-Answers later key (is_valid r env key st).1 v (env.third + r.cache_ttl)
        (entry_is_stored env key st v miss miss_again answer) alone forward

  -- An error of the database is passed on and leaves no trace in the cache: if no entry for the
  -- key is live, and the query fails, the call returns that error and the cache is that which the
  -- other goroutines left.
  pub error_is_not_cached :
      (env : Env) (key : Text) (st : State S) (e : Error)
      → live env.first (lookup key st.cache) ≡ none
      → live env.second (lookup key (env.others st.cache)) ≡ none
      → (r.query key st.db).0 ≡ err e
      → ((is_valid r env key st).0 ≡ err e)
        × ((is_valid r env key st).1.cache ≡ env.others st.cache)
  unfolding is_valid check_again query_and_cache
  error_is_not_cached env key st e miss miss_again failed = ground arith
