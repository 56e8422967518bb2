-- ===== src/Redis/Outage/Pushed.antt =====
-- What a replay adds to the stream (internal/adapter/repository/redis/log_repository.go).
use watch_tower.Common.{
  ◌≡◌, inl, inr, sym, ap, ◌∙◌, List, [], ◌∷◌, arith, All, Op, ok, Result-cases,
}
use mathlib.Core.Path.{subst}
use watch_tower.Domain.{LogEvent}
use watch_tower.Domain.Codec.{CodecLaws}
use watch_tower.Wal.Log.Replay.{for_each}
use watch_tower.Redis.Buffer.{Repository, buffer_log_to_redis}
use watch_tower.Redis.Drain.{Answers, push}
use watch_tower.Redis.Outage.{Stream}
use watch_tower.Redis.Outage.Safe.{redis_keeps, redis_adds}

module _ {H : Type 0} (r : Repository H) (ctx_err : Op H Unit) (laws : CodecLaws r.codec)
    (stream : Stream r ctx_err) where
  pub push_keeps :
      (a : Answers) (es : List LogEvent) (h : H) (e : LogEvent)
      → stream.contains e h
      → stream.contains e (push r ctx_err a es h).1
  unfolding for_each
  push_keeps a [] h e there = there
  push_keeps a (x ∷ xs) h e there =
      let (c, h1) = ctx_err h in
      let (b, h2) = buffer_log_to_redis r x h1 in
      let go = (push r ctx_err a (x ∷ xs) h).1 in
      let asked = stream.keeps_ctx e h there in
      let pushed = redis_keeps r ctx_err laws stream x e h1 asked in
      elim (Result-cases c) [
        | inr (y, ended) ↦ let same : go ≡ h1 = ground arith in rw same asked
        | inl (_, going) ↦ elim (Result-cases b) [
          | inr (y, failed) ↦ let same : go ≡ h2 = ground arith in rw same pushed
          | inl (_, added) ↦
              let same : go ≡ (push r ctx_err a xs h2).1 = ground arith in
              rw same (push_keeps a xs h2 e pushed)
        ]
      ]

  pub push_adds :
      (a : Answers) (es : List LogEvent) (h : H)
      → (push r ctx_err a es h).0 ≡ ok tt
      → All (λ e. stream.contains (r.codec.wire e) (push r ctx_err a es h).1) es
  unfolding for_each
  push_adds a [] h done = tt
  push_adds a (x ∷ xs) h done =
      let (c, h1) = ctx_err h in
      let (b, h2) = buffer_log_to_redis r x h1 in
      let go = push r ctx_err a (x ∷ xs) h in
      elim (Result-cases c) [
        | inr (y, ended) ↦ absurd (ground arith)
        | inl (_, going) ↦ elim (Result-cases b) [
          | inr (y, failed) ↦ absurd (ground arith)
          | inl (_, added) ↦
              let same : go ≡ push r ctx_err a xs h2 = ground arith in
              let rest : (push r ctx_err a xs h2).0 ≡ ok tt = ap (λ q. q.0) (sym same) ∙ done in
              subst (λ q. All (λ e. stream.contains (r.codec.wire e) q.1) (x ∷ xs)) (sym same)
                (
                  push_keeps a xs h2 (r.codec.wire x) (redis_adds r ctx_err laws stream x h1 added),
                  push_adds a xs h2 rest,
                )
        ]
      ]
