-- ===== src/Service/Consumer/Served.antt =====
-- A group of the stream that is served, and the worker that reads from it (cmd/consumer/main.go,
-- internal/usecase/process_logs.go and internal/adapter/repository/redis/log_repository.go).
use mathlib.Core.Path.{subst}
use watch_tower.Common.{
  ℕ, zero, suc, ◌≡◌, refl, sym, ap, ◌∙◌, List, [], ◌∷◌, ◌++◌, map, arith, take, Text, Result, ok,
  err, redis_nil, append-nil,
}
use watch_tower.Domain.{LogEvent}
use watch_tower.Domain.Codec.{Codec, CodecLaws}
use watch_tower.Config.{Config}
use watch_tower.Redis.Errors.{is_redis_nil}
use watch_tower.Redis.Client.{Stream, XAddArgs}
use watch_tower.Redis.Buffer.{Repository, log_stream_key}
use watch_tower.Redis.Batch
use watch_tower.Redis.Batch.{read_args, dlq_entries}
use watch_tower.Redis.Batch.RoundTrip.{Published, message_of, received, read_log_batch-received}
use watch_tower.Sink
use watch_tower.Sink.Kept.{KeptBy, write_log_batch-keeps}
use watch_tower.Consumer.Loop.Drained.{Group, drop}
use watch_tower.Service.Consumer.{Libraries, consumer_group, redis_repository, process_logs}

-- The answer of XREADGROUP: redis.Nil where there is nothing to hand over.
unfoldable pub reply_of : {codec : Codec} → List (Published codec) → Result (List Stream)
reply_of [] = err redis_nil
reply_of (p ∷ ps) = ok (record { name = log_stream_key; messages = map message_of (p ∷ ps) } ∷ [])

-- A group of a stream that is served from now on. `is_up` holds in the states in which Redis answers
-- and the context has not ended, and every call leads to such a state again. A read with ">" hands
-- over the first messages that were not delivered before, all of them with entries of the producer;
-- an acknowledgement and a pipeline succeed. The statements of the database, whatever they answer,
-- the clock and the look at the context leave the group alone.
pub record Served {S : Type 0} (lib : Libraries S) (cfg : Config) (name : Text) : Type 1 where
  pub is_up : S → Type 0
  pub backlog : S → List (Published lib.codec)
  pub acked : S → List Text
  pub reads :
      (n : ℕ) (s : S)
      → is_up s
      → (((lib.connect cfg.redis_addr).x_read_group (read_args consumer_group name n) s).0
          ≡ reply_of (take n (backlog s)))
        × is_up ((lib.connect cfg.redis_addr).x_read_group (read_args consumer_group name n) s).1
        × (backlog ((lib.connect cfg.redis_addr).x_read_group (read_args consumer_group name n) s).1
            ≡ drop n (backlog s))
        × (acked ((lib.connect cfg.redis_addr).x_read_group (read_args consumer_group name n) s).1
            ≡ acked s)
  pub acks :
      (ids : List Text) (s : S)
      → is_up s
      → ((count : ℕ) × (((lib.connect cfg.redis_addr).x_ack log_stream_key consumer_group ids s).0
            ≡ ok count))
        × is_up ((lib.connect cfg.redis_addr).x_ack log_stream_key consumer_group ids s).1
        × (backlog ((lib.connect cfg.redis_addr).x_ack log_stream_key consumer_group ids s).1
            ≡ backlog s)
        × (acked ((lib.connect cfg.redis_addr).x_ack log_stream_key consumer_group ids s).1
            ≡ acked s ++ ids)
  pub pipelines :
      (entries : List XAddArgs) (s : S)
      → is_up s
      → (((lib.connect cfg.redis_addr).pipeline entries s).0 ≡ ok tt)
        × is_up ((lib.connect cfg.redis_addr).pipeline entries s).1
        × (backlog ((lib.connect cfg.redis_addr).pipeline entries s).1 ≡ backlog s)
        × (acked ((lib.connect cfg.redis_addr).pipeline entries s).1 ≡ acked s)
  pub imports :
      (ps : List (Published lib.codec)) (ids : List Text)
      → KeptBy lib.db (λ s. is_up s × (backlog s ≡ ps) × (acked s ≡ ids))
  pub asks :
      (s : S)
      → is_up s
      → is_up (lib.ctx_err s).1
        × (backlog (lib.ctx_err s).1 ≡ backlog s)
        × (acked (lib.ctx_err s).1 ≡ acked s)
  pub waits :
      (d : ℕ) (s : S)
      → is_up s
      → is_up (lib.wait d s).1
        × (backlog (lib.wait d s).1 ≡ backlog s)
        × (acked (lib.wait d s).1 ≡ acked s)

map-take : {A B : Type 0} (f : A → B) (n : ℕ) (xs : List A) → map f (take n xs) ≡ take n (map f xs)
map-take f zero xs = refl
map-take f (suc n) [] = refl
map-take f (suc n) (x ∷ xs) = ap (◌∷◌ (f x)) (map-take f n xs)

map-drop : {A B : Type 0} (f : A → B) (n : ℕ) (xs : List A) → map f (drop n xs) ≡ drop n (map f xs)
map-drop f zero xs = refl
map-drop f (suc n) [] = refl
map-drop f (suc n) (x ∷ xs) = map-drop f n xs

-- What `ReadLogBatch` makes of such an answer; one that is empty is no error.
read_log_batch-reply :
    {S : Type 0} (r : Repository S) (laws : CodecLaws r.codec) (group consumer : Text) (n : ℕ)
    (s : S) (ps : List (Published r.codec))
    → (r.client.x_read_group (read_args group consumer n) s).0 ≡ reply_of ps
    → Batch.read_log_batch r group consumer n s
      ≡ (ok (map received ps), (r.client.x_read_group (read_args group consumer n) s).1)
unfolding reply_of Batch.read_log_batch is_redis_nil
read_log_batch-reply r laws group consumer n s [] reply = ground (arith, reply)
read_log_batch-reply r laws group consumer n s (p ∷ ps) reply =
    let got = read_log_batch-received r laws group consumer log_stream_key n s (p ∷ ps) [] reply in
    let events = got.0 in ground (arith, events, reply)

module _ {S : Type 0} (lib : Libraries S) (laws : CodecLaws lib.codec) (cfg : Config) (name : Text)
    (g : Served lib cfg name) where
  -- The messages not delivered yet, as the worker will see their events, and the acknowledged ids.
  abbrev pub IsAt : List LogEvent → List Text → S → Type 0
  IsAt es ids s = g.is_up s × (map received (g.backlog s) ≡ es) × (g.acked s ≡ ids)

  pub reads-IsAt :
      (n : ℕ) (es : List LogEvent) (ids : List Text) (s : S)
      → IsAt es ids s
      → ((Batch.read_log_batch (redis_repository lib cfg) consumer_group name n s).0
          ≡ ok (take n es))
        × IsAt
            (drop n es)
            ids
            (Batch.read_log_batch (redis_repository lib cfg) consumer_group name n s).1
  reads-IsAt n es ids s (up, left, done) =
      let (reply, up', rest, same) = g.reads n s up in
      let got =
        read_log_batch-reply (redis_repository lib cfg) laws consumer_group name n s
          (take n (g.backlog s)) reply in
      let s1 = ((lib.connect cfg.redis_addr).x_read_group (read_args consumer_group name n) s).1 in
      (
        ap (λ q. q.0) got ∙ ap ok (map-take received n (g.backlog s) ∙ ap (take n) left),
        subst (IsAt (drop n es) ids) (sym (ap (λ q. q.1) got)) (
          up',
          ap (map received) rest ∙ map-drop received n (g.backlog s) ∙ ap (drop n) left,
          same ∙ done,
        ),
      )

  pub acks-IsAt :
      (new : List Text) (es : List LogEvent) (ids : List Text) (s : S)
      → IsAt es ids s
      → ((Batch.acknowledge_logs (redis_repository lib cfg) consumer_group new s).0 ≡ ok tt)
        × IsAt es
            (ids ++ new)
            (Batch.acknowledge_logs (redis_repository lib cfg) consumer_group new s).1
  unfolding Batch.acknowledge_logs
  acks-IsAt [] es ids s (up, left, done) = (refl, (up, left, done ∙ sym (append-nil ids)))
  acks-IsAt (id ∷ new) es ids s (up, left, done) =
      let ((count, taken), up', rest, more) = g.acks (id ∷ new) s up in
      let s1 = ((lib.connect cfg.redis_addr).x_ack log_stream_key consumer_group (id ∷ new) s).1 in
      let e : Batch.acknowledge_logs (redis_repository lib cfg) consumer_group (id ∷ new) s
          ≡ (ok tt, s1) =
        ground (arith, taken) in
      (
        ap (λ q. q.0) e,
        subst (IsAt es (ids ++ id ∷ new)) (sym (ap (λ q. q.1) e))
            (up', ap (map received) rest ∙ left, more ∙ ap (λ l. l ++ id ∷ new) done),
      )

  pub moves-IsAt :
      (batch es : List LogEvent) (ids : List Text) (s : S)
      → IsAt es ids s
      → ((Batch.move_to_dlq (redis_repository lib cfg) batch s).0 ≡ ok tt)
        × IsAt es ids (Batch.move_to_dlq (redis_repository lib cfg) batch s).1
  unfolding Batch.move_to_dlq
  moves-IsAt [] es ids s h = (refl, h)
  moves-IsAt (x ∷ xs) es ids s (up, left, done) =
      let entries = dlq_entries (redis_repository lib cfg) (x ∷ xs) in
      let (taken, up', rest, same) = g.pipelines entries s up in
      let s1 = ((lib.connect cfg.redis_addr).pipeline entries s).1 in
      let e : Batch.move_to_dlq (redis_repository lib cfg) (x ∷ xs) s ≡ (ok tt, s1) =
        ground (arith, taken) in
      (
        ap (λ q. q.0) e,
        subst (IsAt es ids) (sym (ap (λ q. q.1) e))
            (up', ap (map received) rest ∙ left, same ∙ done),
      )

  pub writes-IsAt :
      (batch es : List LogEvent) (ids : List Text) (s : S)
      → IsAt es ids s
      → IsAt es ids (Sink.write_log_batch lib.db batch s).1
  writes-IsAt batch es ids s (up, left, done) =
      let (up', rest, same) =
        write_log_batch-keeps lib.db _ (g.imports (g.backlog s) ids) batch s (up, refl, done) in
      (up', ap (map received) rest ∙ left, same)

  -- The worker's group.
  abbrev pub group_of : Group (process_logs lib cfg name)
  group_of = record {
    is_at = λ es ids st. IsAt es ids st.world;
    reads = λ n es ids st. reads-IsAt n es ids st.world;
    acks = λ new es ids st. acks-IsAt new es ids st.world;
    moves = λ batch es ids st. moves-IsAt batch es ids st.world;
    writes = λ batch es ids st. writes-IsAt batch es ids st.world;
    asks = λ es ids st (up, left, done).
        let (up', rest, same) = g.asks st.world up in
        (up', ap (map received) rest ∙ left, same ∙ done);
    waits = λ d es ids st (up, left, done).
        let (up', rest, same) = g.waits d st.world up in
        (up', ap (map received) rest ∙ left, same ∙ done);
  }
