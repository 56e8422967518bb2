-- ===== src/Redis/Outage/Safe.antt =====
-- Where accepted events are, in the stream or in the log (internal/adapter/repository/redis/log_repository.go).
use watch_tower.Common.{
  ℕ, suc, ◌≤◌, ◌<◌, ◌≡◌, ◌⊎◌, inl, inr, refl, true, none, List, [], ◌∷◌, ◌++◌, arith, All, length,
  Text, Op, ok, Result-cases,
}
use mathlib.Core.Path.{subst}
use watch_tower.Scanner.{max_token}
use watch_tower.Domain.{LogEvent}
use watch_tower.Domain.Codec.{CodecLaws}
use watch_tower.Wal.Dated.{IsTimed}
use watch_tower.Wal.Segments.{Wal}
use watch_tower.Wal.Methods
use watch_tower.Wal.Journal.{Journal}
use watch_tower.Wal.Journal.Invariant.{IsKept, later-IsKept, written-IsKept}
use watch_tower.Redis.Buffer.{Repository, Shared, log_entry, buffer_log_to_redis}
use watch_tower.Redis.Drain.{World, Answers}
use watch_tower.Redis.Outage.{Among, add_accepted, Stream}

pub All-map-to :
    {A : Type 0} (P Q : A → Type 0) (es : List A) → ((e : A) → P e → Q e) → All P es → All Q es
All-map-to P Q [] f h = tt
All-map-to P Q (e ∷ es) f h = (f e h.0, All-map-to P Q es f h.1)

pub side_by_side : {A B C D : Type 0} → (A → C) → (B → D) → A ⊎ B → C ⊎ D
side_by_side f g (inl a) = inl (f a)
side_by_side f g (inr b) = inr (g b)

pub Among-left : (e : LogEvent) (xs ys : List LogEvent) → Among e xs → Among e (xs ++ ys)
Among-left e [] ys h = absurd h
Among-left e (x ∷ xs) ys (inl same) = inl same
Among-left e (x ∷ xs) ys (inr h) = inr (Among-left e xs ys h)

pub Among-last : (e : LogEvent) (xs : List LogEvent) → Among e (xs ++ e ∷ [])
Among-last e [] = inl refl
Among-last e (x ∷ xs) = inr (Among-last e xs)

pub All-Among :
    (P : LogEvent → Type 0) (e : LogEvent) (xs : List LogEvent) → All P xs → Among e xs → P e
All-Among P e [] h m = absurd m
All-Among P e (x ∷ xs) h (inl same) = subst P same h.0
All-Among P e (x ∷ xs) h (inr m) = All-Among P e xs h.1 m

module _ {H : Type 0} (r : Repository H) (ctx_err : Op H Unit) (laws : CodecLaws r.codec)
    (stream : Stream r ctx_err) where
  -- Where an accepted event is: in the stream, or in the log that holds these events.
  abbrev pub IsSomewhere : H → List LogEvent → LogEvent → Type 0
  IsSomewhere h es e = stream.contains (r.codec.wire e) h ⊎ Among (r.codec.wire e) es

  -- The log is in order, and each accepted event is somewhere.
  pub record IsSafe (t : ℕ) (acc : List LogEvent) (es : List LogEvent) (s : World H) : Type 0 where
    pub kept : IsKept r.codec laws (record { clock = t; wal = s.1; events = es })
    pub all : All (IsSomewhere s.0 es) acc

  -- What only adds to the stream.
  pub moved-IsSafe :
      (t : ℕ) (acc es : List LogEvent) (h h' : H) (w : Wal)
      → ((e : LogEvent) → stream.contains e h → stream.contains e h')
      → IsSafe t acc es (h, w)
      → IsSafe t acc es (h', w)
  moved-IsSafe t acc es h h' w keeps safe = record {
    kept = safe.kept;
    all =
        All-map-to (IsSomewhere h es) (IsSomewhere h' es) acc
          (λ e. side_by_side (keeps (r.codec.wire e)) (λ m. m)) safe.all;
  }

  pub later-IsSafe :
      (t t' : ℕ) (acc es : List LogEvent) (s : World H)
      → t ≤ t'
      → IsSafe t acc es s
      → IsSafe t' acc es s
  later-IsSafe t t' acc es s le safe = record {
    kept = later-IsKept r.codec laws (record { clock = t; wal = s.1; events = es }) t' le safe.kept;
    all = safe.all;
  }

  pub redis_keeps :
      (event e : LogEvent) (h : H)
      → stream.contains e h
      → stream.contains e (buffer_log_to_redis r event h).1
  unfolding buffer_log_to_redis
  redis_keeps event e h there = elim (Result-cases (r.codec.marshal event)) [
    | inr (x, refused) ↦
        let same : (buffer_log_to_redis r event h).1 ≡ h = ground arith in rw same there
    | inl (payload, encoded) ↦
        let same : (buffer_log_to_redis r event h).1 ≡ (r.client.x_add (log_entry payload) h).1 =
          ground arith in
        rw same (stream.keeps_add (log_entry payload) e h there)
  ]

  pub redis_adds :
      (event : LogEvent) (h : H)
      → (buffer_log_to_redis r event h).0 ≡ ok tt
      → stream.contains (r.codec.wire event) (buffer_log_to_redis r event h).1
  unfolding buffer_log_to_redis
  redis_adds event h done = elim (Result-cases (r.codec.marshal event)) [
    | inr (x, refused) ↦ absurd (ground arith)
    | inl (payload, encoded) ↦
        let same : (buffer_log_to_redis r event h).1 ≡ (r.client.x_add (log_entry payload) h).1 =
          ground arith in
        let taken : (r.client.x_add (log_entry payload) h).0 ≡ ok tt = ground arith in
        rw same (
          stream.added payload (r.codec.wire event) h taken (laws.round_trip event payload encoded))
  ]

  -- A write to the log, accepted or not.
  pub written-IsSafe :
      (a : Answers) (event : LogEvent) (t : ℕ) (acc es : List LogEvent) (h : H) (w : Wal)
      → IsTimed t a.on_write
      → a.on_write.short ≡ none
      → ((body : Text) → r.codec.marshal event ≡ ok body → length body < max_token)
      → IsSafe t acc es (h, w)
      → (es' : List LogEvent) × IsSafe
          (suc a.on_write.after.now)
          (add_accepted (Methods.write r.codec a.on_write event w).0 event acc)
          es'
          (h, (Methods.write r.codec a.on_write event w).1)
  written-IsSafe a event t acc es h w timed short fits safe =
      let j : Journal = record { clock = t; wal = w; events = es } in
      let kept = written-IsKept r.codec laws a.on_write event j safe.kept timed short fits in
      let there : All (IsSomewhere h (es ++ r.codec.wire event ∷ [])) acc =
        All-map-to (IsSomewhere h es) (IsSomewhere h (es ++ r.codec.wire event ∷ [])) acc
          (λ e.
            side_by_side (λ c. c) (λ m. Among-left (r.codec.wire e) es (r.codec.wire event ∷ []) m))
          safe.all in
      elim (Result-cases (Methods.write r.codec a.on_write event w).0) [
        | inr (x, refused) ↦ (es, rw refused (record { kept = rw refused at kept; all = safe.all }))
        | inl (tt, accepted) ↦ (
          es ++ r.codec.wire event ∷ [],
          rw accepted (record {
            kept = rw accepted at kept;
            all = (inr (Among-last (r.codec.wire event) es), there);
          }),
        )
      ]

  -- While Redis counts as available, the log is empty.
  pub record IsSafeNow (t : ℕ) (acc : List LogEvent) (st : Shared (World H)) : Type 0 where
    pub events : List LogEvent
    pub safe : IsSafe t acc events st.world
    pub empty : st.is_available ≡ true → events ≡ []
