-- ===== src/Redis/Drain.antt =====
-- The log repository with the WAL of Wal/Methods behind it: ReplayWAL over both
-- (internal/adapter/repository/redis/log_repository.go and
-- internal/adapter/repository/wal/wal_repository.go).
use watch_tower.Common.{
  ◌≡◌, ◌⊎◌, inl, inr, refl, ap, ◌∙◌, false, none, some, List, [], ◌∷◌, arith, Text, Op, Error,
  Option, ok, err, wrapped, codes, Result-cases, wrap_error,
}
use watch_tower.Domain.{LogEvent, WalRepository}
use watch_tower.Domain.Codec.{Codec, CodecLaws}
use watch_tower.Wal.Files.{segment_name, content?}
use watch_tower.Wal.Segments.{Wal}
use watch_tower.Wal.Methods
use watch_tower.Wal.Methods.{WriteEnv, ReplayEnv, TruncateEnv}
use watch_tower.Wal.Emptied.{truncate_empties}
use watch_tower.Wal.Removal.{IsDistinct}
use watch_tower.Wal.Log.{log_lines, IsReady}
use watch_tower.Wal.Log.Replay.{IsCalm, for_each, replay-for_each}
use watch_tower.Wal.Log.RoundTrip.{Holds}
use watch_tower.Redis.Client.{Client}
use watch_tower.Redis.Buffer.{Repository, Shared, buffer_log_to_redis, replay_wal}

-- The world of the producer: the state of the client and the context, and the WAL.
abbrev pub World : Type 0 → Type 0
World H = H × Wal

abbrev pub on_client : {H A : Type 0} → Op H A → Op (World H) A
on_client m (h, w) = let (r, h') = m h in (r, (h', w))

abbrev pub on_wal : {H A : Type 0} → Op Wal A → Op (World H) A
on_wal m (h, w) = let (r, w') = m w in (r, (h, w'))

abbrev pub client_beside : {H : Type 0} → Client H → Client (World H)
client_beside c = record {
  x_group_create_mk_stream = λ s g i. on_client (c.x_group_create_mk_stream s g i);
  ping = on_client c.ping;
  x_add = λ a. on_client (c.x_add a);
  x_read_group = λ a. on_client (c.x_read_group a);
  x_ack = λ s g ids. on_client (c.x_ack s g ids);
  pipeline = λ entries. on_client (c.pipeline entries);
}

-- A repository with the WAL beside its client. The group is set up without it.
abbrev pub beside_wal : {H : Type 0} → Wal → Shared H → Shared (World H)
beside_wal w st = record {
  is_available = st.is_available;
  wal_active = st.wal_active;
  world = (st.world, w);
}

-- What the operating system answers to the calls of the WAL's methods.
pub record Answers : Type 0 where
  pub on_write : WriteEnv
  pub on_replay : ReplayEnv
  pub on_truncate : TruncateEnv
  pub on_close : Option Error

module _ {H : Type 0} (codec : Codec) (ctx_err : Op H Unit) (answers : Answers) where
  -- The handler of a replay works on the client alone: the WAL holds its mutex.
  abbrev pub wal_repository : WalRepository (World H)
  wal_repository = record {
    write = λ e. on_wal (Methods.write codec answers.on_write e);
    replay = λ handler (h, w).
        let (r, (w', (h', _))) =
          Methods.replay codec (on_client ctx_err) handler answers.on_replay (w, (h, w)) in
        (r, (h', w'));
    truncate = on_wal (Methods.truncate answers.on_truncate);
    close = on_wal (Methods.close answers.on_close);
  }

module _ {H : Type 0} (r : Repository H) (ctx_err : Op H Unit) (answers : Answers) where
  abbrev pub with_wal : Repository (World H)
  with_wal = record {
    client = client_beside r.client;
    codec = r.codec;
    wal = some (wal_repository r.codec ctx_err answers);
    dlq_stream_key = r.dlq_stream_key;
    has_metrics = r.has_metrics;
  }

  pub buffer_beside :
      (event : LogEvent) (h : H) (w : Wal)
      → buffer_log_to_redis with_wal event (h, w)
        ≡ ((buffer_log_to_redis r event h).0, ((buffer_log_to_redis r event h).1, w))
  unfolding buffer_log_to_redis
  buffer_beside event h w = elim (Result-cases (r.codec.marshal event)) [
    | inl (payload, encoded) ↦ ground arith
    | inr (e, refused) ↦ ground arith
  ]

  -- The events pushed to Redis one after the other, on the client alone.
  abbrev pub push : List LogEvent → Op H Unit
  push = for_each r.codec ctx_err (buffer_log_to_redis r)

  for_each_beside :
      (es : List LogEvent) (h : H) (w : Wal)
      → for_each r.codec (on_client ctx_err) (buffer_log_to_redis with_wal) es (h, w)
        ≡ ((push es h).0, ((push es h).1, w))
  unfolding for_each
  for_each_beside [] h w = refl
  for_each_beside (event ∷ es) h w =
      let (c, h1) = ctx_err h in
      let (b, h2) = buffer_log_to_redis r event h1 in
      ground (arith, buffer_beside event h1 w, for_each_beside es h2 w)

  pub replayed :
      (laws : CodecLaws r.codec) (w : Wal) (es : List LogEvent) (h : H)
      → Holds r.codec laws w es
      → IsCalm answers.on_replay
      → (wal_repository r.codec ctx_err answers).replay (buffer_log_to_redis with_wal) (h, w)
        ≡ ((push es h).0, ((push es h).1, record w { current = none; is_closed = false }))
  replayed laws w es h holds calm =
      let e =
        replay-for_each r.codec (on_client ctx_err) (buffer_log_to_redis with_wal) answers.on_replay
          w es (h, w) calm holds.fits holds.decodes in
      ap (λ q. (q.0, (q.1.1.0, q.1.0))) e
      ∙ ap (λ q. (q.0, (q.1.0, record w { current = none; is_closed = false })))
          (for_each_beside es h w)

  -- If the WAL holds certain events, no system call of the replay fails, the truncation can list the
  -- directory and removes every segment, no two entries of the directory have one name, and none has
  -- the name of the segment that the truncation creates, then `ReplayWAL` leaves the client where
  -- pushing these events one after the other leaves it, until one fails or the context ends. Either
  -- all were pushed, and the WAL is empty and ready; or one failed, whose error comes back wrapped,
  -- and all files of the WAL are as before.
  pub replay_wal_drains :
      (laws : CodecLaws r.codec) (w : Wal) (es : List LogEvent) (h : H)
      → Holds r.codec laws w es
      → IsCalm answers.on_replay
      → answers.on_truncate.read_dir ≡ none
      → ((n : Text) → answers.on_truncate.keeps n ≡ false)
      → IsDistinct w.dir
      → content? (segment_name answers.on_truncate.reopen.rotation.now) w.dir ≡ none
      → ((replay_wal with_wal (wal_repository r.codec ctx_err answers) (h, w)).1.0 ≡ (push es h).1)
        × ((((push es h).0 ≡ ok tt)
              × (log_lines
                    (replay_wal with_wal (wal_repository r.codec ctx_err answers) (h, w)).1.1.dir
                  ≡ [])
              × IsReady (replay_wal with_wal (wal_repository r.codec ctx_err answers) (h, w)).1.1)
            ⊎ ((e : Error) × ((push es h).0 ≡ err e)
                × ((replay_wal with_wal (wal_repository r.codec ctx_err answers) (h, w)).0
                    ≡ err (wrapped (codes "WAL replay failed: ") e))
                × ((replay_wal with_wal (wal_repository r.codec ctx_err answers) (h, w)).1.1.dir
                    ≡ w.dir)))
  unfolding replay_wal
  replay_wal_drains laws w es h holds calm listable removed distinct absent =
      let go = replay_wal with_wal (wal_repository r.codec ctx_err answers) (h, w) in
      let w' = record w { current = none; is_closed = false } in
      let done = replayed laws w es h holds calm in
      let (empty, ready) =
        truncate_empties answers.on_truncate w' listable removed distinct absent in
      let t = Methods.truncate answers.on_truncate w' in
      elim (Result-cases (push es h).0) [
        | inl (_, pushed) ↦
            let e : go ≡ (
              wrap_error (codes "failed to truncate WAL after successful replay: ") t.0,
              ((push es h).1, t.1),
            ) =
              ground (arith, done) in
            (ap (λ q. q.1.0) e, inl (pushed, rw e empty, rw e ready))
        | inr (x, failed) ↦
            let e : go ≡ (err (wrapped (codes "WAL replay failed: ") x), ((push es h).1, w')) =
              ground (arith, done) in
            (ap (λ q. q.1.0) e, inr (x, failed, ap (λ q. q.0) e, ap (λ q. q.1.1.dir) e))
      ]
