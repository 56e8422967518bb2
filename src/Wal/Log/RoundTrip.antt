-- ===== src/Wal/Log/RoundTrip.antt =====
-- What was accepted is replayed (internal/adapter/repository/wal/wal_repository.go).
use mathlib.Core.Path.{subst}
use watch_tower.Common.{
  ◌<◌, ◌≡◌, sym, none, List, [], ◌∷◌, ◌++◌, map, All-append, length, Text, append_assoc, append-nil,
  ok, Op, false,
}
use watch_tower.Scanner.{max_token}
use watch_tower.Domain.{LogEvent}
use watch_tower.Domain.Codec.{Codec, CodecLaws}
use watch_tower.Wal.Segments.{Wal}
use watch_tower.Wal.Methods.{WriteEnv, write, ReplayEnv, replay}
use watch_tower.Wal.Log.{log_lines, IsReady}
use watch_tower.Wal.Log.Write.{IsAdvancing}
use watch_tower.Wal.Log.Accept.{write_acknowledged}
use watch_tower.Wal.Log.Replay.{IsCalm, Fits, Decodes, for_each, replay-for_each}

module _ (codec : Codec) (laws : CodecLaws codec) where
  -- The state behind a sequence of writes.
  pub after_writes : List (WriteEnv × LogEvent) → Wal → Wal
  after_writes [] w = w
  after_writes ((env, event) ∷ rest) w = after_writes rest (write codec env event w).1

  -- Each write is accepted, at a time later than those of the segments, and its line fits the
  -- scanner that will read it.
  abbrev pub AreAccepted : List (WriteEnv × LogEvent) → Wal → Type 0
  AreAccepted [] w = Unit
  AreAccepted ((env, event) ∷ rest) w =
      IsAdvancing env w.dir
      × ((write codec env event w).0 ≡ ok tt)
      × ((body : Text) → codec.marshal event ≡ ok body → length body < max_token)
      × AreAccepted rest (write codec env event w).1

  Decodes-append :
      (xs ys : List Text) (es fs : List LogEvent)
      → Decodes codec xs es
      → Decodes codec ys fs
      → Decodes codec (xs ++ ys) (es ++ fs)
  Decodes-append [] ys [] fs d f = f
  Decodes-append [] ys (e ∷ es) fs d f = absurd d
  Decodes-append (x ∷ xs) ys [] fs d f = absurd d
  Decodes-append (x ∷ xs) ys (e ∷ es) fs d f = (d.0, Decodes-append xs ys es fs d.1 f)

  -- The lines of the log are these events, and can be scanned.
  pub record Holds (w : Wal) (es : List LogEvent) : Type 0 where
    pub ready : IsReady w
    pub fits : Fits (log_lines w.dir)
    pub decodes : Decodes codec (log_lines w.dir) es

  pub write-Holds :
      (env : WriteEnv) (event : LogEvent) (w : Wal) (es : List LogEvent)
      → Holds w es
      → IsAdvancing env w.dir
      → (write codec env event w).0 ≡ ok tt
      → ((body : Text) → codec.marshal event ≡ ok body → length body < max_token)
      → Holds (write codec env event w).1 (es ++ codec.wire event ∷ [])
  write-Holds env event w es h advancing accepted short =
      let (body, encoded, view, ready) =
        write_acknowledged codec laws env event w h.ready advancing accepted in
      let old = log_lines w.dir in
      record {
        ready = ready;
        fits = subst Fits (sym view) (
          All-append _ old (body ∷ []) h.fits.0 (laws.one_line event body encoded, tt),
          All-append _ old (body ∷ []) h.fits.1 (short body encoded, tt),
        );
        decodes =
            subst (λ ls. Decodes codec ls (es ++ codec.wire event ∷ [])) (sym view)
              (Decodes-append old (body ∷ []) es (codec.wire event ∷ []) h.decodes
                (laws.round_trip event body encoded, tt));
      }

  after_writes-Holds :
      (ws : List (WriteEnv × LogEvent)) (w : Wal) (es : List LogEvent)
      → Holds w es
      → AreAccepted ws w
      → Holds (after_writes ws w) (es ++ map (λ p. codec.wire p.1) ws)
  unfolding after_writes
  after_writes-Holds [] w es h a = subst (Holds w) (sym (append-nil es)) h
  after_writes-Holds ((env, event) ∷ rest) w es h (advancing, accepted, short, others) =
      subst (Holds (after_writes rest (write codec env event w).1))
        (append_assoc es (codec.wire event ∷ []) (map (λ p. codec.wire p.1) rest))
        (after_writes-Holds rest (write codec env event w).1 (es ++ codec.wire event ∷ [])
          (write-Holds env event w es h advancing accepted short) others)

  -- From a log that holds certain events, after any writes that are all accepted, each with an
  -- encoding shorter than the scanner's buffer, a replay in which no system call fails hands its
  -- handler the old events and then the decoded new ones, in the order of the writes, and returns
  -- what the handler and the context make of them.
  pub replay-after_writes :
      {H : Type 0} (ctx_err : Op H Unit) (handler : LogEvent → Op H Unit) (env : ReplayEnv)
      (ws : List (WriteEnv × LogEvent)) (w : Wal) (es : List LogEvent) (h : H)
      → Holds w es
      → AreAccepted ws w
      → IsCalm env
      → replay codec ctx_err handler env (after_writes ws w, h) ≡ (
        (for_each codec ctx_err handler (es ++ map (λ p. codec.wire p.1) ws) h).0,
        (
          record (after_writes ws w) { current = none; is_closed = false },
          (for_each codec ctx_err handler (es ++ map (λ p. codec.wire p.1) ws) h).1,
        ),
      )
  replay-after_writes ctx_err handler env ws w es h holds accepted calm =
      let after = after_writes-Holds ws w es holds accepted in
      replay-for_each codec ctx_err handler env (after_writes ws w) _ h calm after.fits
        after.decodes
