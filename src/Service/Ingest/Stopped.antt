-- ===== src/Service/Ingest/Stopped.antt =====
-- What a shut-down and the next start keep (cmd/ingest/main.go).
use watch_tower.Common.{
  ℕ, ◌≡◌, refl, sym, ap, ◌∙◌, true, false, some, Option, List, [], ◌∷◌, arith, All, Text, Op, Done,
  Error, ok, err, Result-cases, Bool-cases, inl, inr, is_ok,
}
use mathlib.Core.Path.{subst}
use watch_tower.Domain.{LogEvent}
use watch_tower.Domain.Codec.{Codec, CodecLaws}
use watch_tower.Wal.Files.{segment_name}
use watch_tower.Wal.Segments.{Wal, OpenEnv}
use watch_tower.Wal.Methods
use watch_tower.Wal.Methods.{
  WriteEnv, new_wal, write_line, ensure_segment, check_budget, write_segment,
}
use watch_tower.Wal.Removal.{IsDistinct}
use watch_tower.Wal.Log.{IsFresh}
use watch_tower.Wal.Log.RoundTrip.{Holds}
use watch_tower.Wal.Opened.{new_wal-Holds}
use watch_tower.Redis.Errors.{is_network_error}
use watch_tower.Redis.Buffer.{Repository, Shared, buffer_log, buffer_log_to_redis}
use watch_tower.Redis.Drain.{World, Answers, with_wal}
use watch_tower.Redis.Outage.{Call, buffer, add_accepted, Stream, run}
use watch_tower.Redis.Outage.Safe.{All-map-to, redis_keeps, redis_adds}
use watch_tower.Redis.Outage.Buffered.{while_down, to_stream, refused_by_redis, to_log}
use watch_tower.Service.Ingest.{shut_down}

-- A log that was closed with its segment in place.
pub record IsShut (w : Wal) : Type 0 where
  pub name : Text
  pub current : w.current ≡ some name
  pub closed : w.is_closed ≡ true

write_shut :
    (codec : Codec) (env : WriteEnv) (event : LogEvent) (w : Wal)
    → IsShut w
    → (is_ok (Methods.write codec env event w).0 ≡ false)
      × ((Methods.write codec env event w).1 ≡ w)
unfolding Methods.write write_line ensure_segment check_budget write_segment
write_shut codec env event w shut = elim (Result-cases (codec.marshal event)) [
  | inr (x, refused) ↦ ground (arith, refused)
  | inl (body, encoded) ↦ ground (arith, encoded, shut.current, shut.closed)
]

-- Requests that still run, with what the operating system answers to them.
abbrev pub late_calls : List (Answers × LogEvent) → List Call
late_calls [] = []
late_calls ((a, event) ∷ cs) = buffer a event ∷ late_calls cs

module _ {H : Type 0} (r : Repository H) (ctx_err : Op H Unit) (laws : CodecLaws r.codec)
    (stream : Stream r ctx_err) where
  -- A call that comes when the log is shut: it leaves the log alone, and is accepted only by the stream.
  record IsLate (w : Wal) (event : LogEvent) (h : H) (p : Done × Shared (World H)) : Type 0 where
    same : p.1.world.1 ≡ w
    keeps : (e : LogEvent) → stream.contains e h → stream.contains e p.1.world.0
    taken : is_ok p.0 ≡ true → stream.contains (r.codec.wire event) p.1.world.0

  -- One that ends in a write to the log.
  logged-IsLate :
      (a : Answers) (event : LogEvent) (h h' : H) (w : Wal) (p : Done × Shared (World H))
      → IsShut w
      → ((e : LogEvent) → stream.contains e h → stream.contains e h')
      → p.0 ≡ (Methods.write r.codec a.on_write event w).0
      → p.1.world ≡ (h', (Methods.write r.codec a.on_write event w).1)
      → IsLate w event h p
  logged-IsLate a event h h' w p shut keeps result world =
      let (refused, same) = write_shut r.codec a.on_write event w shut in
      record {
        same = ap (λ s. s.1) world ∙ same;
        keeps = rw world keeps;
        taken = λ accepted. absurd (ground (arith, result, refused, accepted));
      }

  buffer_log-IsLate :
      (a : Answers) (event : LogEvent) (st : Shared (World H))
      → IsShut st.world.1
      → IsLate st.world.1 event st.world.0 (buffer_log (with_wal r ctx_err a) event st)
  buffer_log-IsLate a event st shut =
      let go = buffer_log (with_wal r ctx_err a) event st in
      let (h, w) = st.world in
      let (d, h1) = buffer_log_to_redis r event h in
      let keeps = λ (e : LogEvent). redis_keeps r ctx_err laws stream event e h in
      elim (Bool-cases st.is_available) [
        | inr down ↦
            let (result, world, _) = while_down r ctx_err laws stream a event st down in
            logged-IsLate a event h h w go shut (λ e there. there) result world
        | inl up ↦ elim (Result-cases d) [
          | inl (tt, done) ↦ rw (to_stream r ctx_err laws stream a event st up done) (record {
            same = refl;
            keeps = keeps;
            taken = λ accepted. redis_adds r ctx_err laws stream event h done;
          })
          | inr (x, failed) ↦ elim (Bool-cases (is_network_error x)) [
            | inl gone ↦
                let (result, world, _) = to_log r ctx_err laws stream a event st x up failed gone in
                logged-IsLate a event h h1 w go shut keeps result world
            | inr other ↦
                rw (refused_by_redis r ctx_err laws stream a event st x up failed other) (record {
                  same = refl;
                  keeps = keeps;
                  taken = λ accepted. absurd (ground (arith));
                })
          ]
        ]
      ]

  add_contained :
      (event : LogEvent) (h h' : H) (acc : List LogEvent) (d : Done)
      → ((e : LogEvent) → stream.contains e h → stream.contains e h')
      → (is_ok d ≡ true → stream.contains (r.codec.wire event) h')
      → All (λ e. stream.contains (r.codec.wire e) h) acc
      → All (λ e. stream.contains (r.codec.wire e) h') (add_accepted d event acc)
  add_contained event h h' acc (ok _) keeps taken all = (
    taken refl,
    All-map-to (λ e. stream.contains (r.codec.wire e) h) (λ e. stream.contains (r.codec.wire e) h')
        acc (λ e. keeps (r.codec.wire e)) all,
  )
  add_contained event h h' acc (err x) keeps taken all =
      All-map-to (λ e. stream.contains (r.codec.wire e) h)
        (λ e. stream.contains (r.codec.wire e) h') acc (λ e. keeps (r.codec.wire e)) all

  late_run :
      (cs : List (Answers × LogEvent)) (acc : List LogEvent) (st : Shared (World H))
      → IsShut st.world.1
      → All (λ e. stream.contains (r.codec.wire e) st.world.0) acc
      → ((run r ctx_err (late_calls cs) (acc, st)).1.world.1 ≡ st.world.1)
        × All
            (λ e.
              stream.contains (r.codec.wire e) (run r ctx_err (late_calls cs) (acc, st)).1.world.0)
            (run r ctx_err (late_calls cs) (acc, st)).0
  unfolding run
  late_run [] acc st shut all = (refl, all)
  late_run ((a, event) ∷ cs) acc st shut all =
      let (d, st1) = buffer_log (with_wal r ctx_err a) event st in
      let late = buffer_log-IsLate a event st shut in
      let (same, all') =
        late_run cs (add_accepted d event acc) st1 (subst IsShut (sym late.same) shut)
          (add_contained event st.world.0 st1.world.0 acc d late.keeps late.taken all) in
      (same ∙ late.same, all')

  shut_down-wal :
      (on_close : Option Error) (st : Shared (World H)) (name : Text)
      → st.world.1.current ≡ some name
      → (shut_down on_close st).world.1 ≡ record st.world.1 { is_closed = true }
  unfolding shut_down Methods.close
  shut_down-wal on_close st name there = ground (arith, there)

  -- If the log holds certain events, and has a segment open, when the service shuts down, with no two
  -- entries of the directory of one name and none of the name or of a later one than a new segment
  -- gets, then whatever calls of `BufferLog` still run behind the closing of the WAL: each that
  -- returns no error has its event, as it is decoded, in the stream; and a start on the directory that
  -- opens the log comes to one that holds the same events.
  pub shut_down-keeps :
      (on_close : Option Error) (st : Shared (World H)) (es : List LogEvent) (name : Text)
      (cs : List (Answers × LogEvent)) (mkdir : Option Error) (env : OpenEnv)
      (max_segment max_total : ℕ) (w : Wal)
      → Holds r.codec laws st.world.1 es
      → st.world.1.current ≡ some name
      → IsDistinct st.world.1.dir
      → IsFresh (segment_name env.rotation.now) st.world.1.dir
      → (new_wal mkdir env max_segment max_total
          (run r ctx_err (late_calls cs) ([], shut_down on_close st)).1.world.1.dir
          tt).0
        ≡ ok w
      → Holds r.codec laws w es
        × All
            (λ e.
              stream.contains
                (r.codec.wire e)
                (run r ctx_err (late_calls cs) ([], shut_down on_close st)).1.world.0)
            (run r ctx_err (late_calls cs) ([], shut_down on_close st)).0
  shut_down-keeps on_close st es name cs mkdir env max_segment max_total w holds there distinct
        fresh opened =
      let closed = shut_down-wal on_close st name there in
      let shut : IsShut (shut_down on_close st).world.1 =
        subst IsShut (sym closed) (record { name = name; current = there; closed = refl }) in
      let (same, all) = late_run cs [] (shut_down on_close st) shut tt in
      let dir = ap (λ v. v.dir) (same ∙ closed) in
      (
        new_wal-Holds r.codec laws st.world.1 es mkdir env max_segment max_total w holds distinct
            fresh (subst (λ d. (new_wal mkdir env max_segment max_total d tt).0 ≡ ok w) dir opened),
        all,
      )
