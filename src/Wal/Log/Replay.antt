-- ===== src/Wal/Log/Replay.antt =====
-- `Replay` hands the events of the view to its handler, in order
-- (internal/adapter/repository/wal/wal_repository.go).
use watch_tower.Common.{
  ◌<◌, ◌≡◌, ◌≢◌, refl, sym, ap, ◌∙◌, false, none, List, [], ◌∷◌, ◌++◌, arith, All, All-left,
  All-right, concat_map, length, Text, codes, ok, err, wrapped, Op, Done, Result-cases, inl, inr,
}
use watch_tower.Scanner.{max_token, split_lines}
use watch_tower.Scanner.Laws.{scan_lines}
use watch_tower.Domain.{LogEvent}
use watch_tower.Domain.Codec.{Codec}
use watch_tower.Wal.Files.{Dir, content_of, sorted_segments}
use watch_tower.Wal.Files.Contents.{IsPresent, sorted_segments-IsPresent}
use watch_tower.Wal.Segments.{Wal}
use watch_tower.Wal.Methods.{
  ReplayEnv, replay_lines, segment_tokens, replay_content, replay_segment, replay_segments, replay,
}
use watch_tower.Wal.Log.{log_lines, lines_in}

-- No call of the operating system fails.
pub record IsCalm (env : ReplayEnv) : Type 0 where
  pub read_dir : env.read_dir ≡ none
  pub open_file : (n : Text) → env.open_file n ≡ none
  pub read : (n : Text) → env.read n ≡ none

-- The lines fit the scanner's buffer and hold no line end.
abbrev pub Fits : List Text → Type 0
Fits ls = All (All (λ x. (x ≢ 10) × (x ≢ 13))) ls × All (λ l. length l < max_token) ls

-- The lines are the encodings of these events.
abbrev pub Decodes : Codec → List Text → List LogEvent → Type 0
Decodes codec [] [] = Unit
Decodes codec (l ∷ ls) (e ∷ es) = (codec.unmarshal l ≡ ok e) × Decodes codec ls es
Decodes codec _ _ = ⊥

module _ {H : Type 0} (codec : Codec) (ctx_err : Op H Unit) (handler : LogEvent → Op H Unit) where
  -- The specification of a replay: the handler is called for each event until it fails or the
  -- context ends.
  unfoldable pub for_each : List LogEvent → Op H Unit
  for_each [] h = (ok tt, h)
  for_each (event ∷ events) h =
      let (c, h1) = ctx_err h in
      elim c [
        | err e ↦ (err e, h1)
        | ok _ ↦
            let (r, h2) = handler event h1 in
            elim r [
              | err e ↦ (err (wrapped (codes "replay handler failed: ") e), h2)
              | ok _ ↦ for_each events h2
            ]
      ]

  replay_lines-for_each :
      (ls : List Text) (es : List LogEvent) (h : H)
      → Decodes codec ls es
      → replay_lines codec ctx_err handler ls h ≡ for_each es h
  unfolding replay_lines for_each
  replay_lines-for_each [] [] h d = refl
  replay_lines-for_each [] (e ∷ es) h d = absurd d
  replay_lines-for_each (l ∷ ls) [] h d = absurd d
  replay_lines-for_each (l ∷ ls) (e ∷ es) h d =
      ground (arith, replay_lines-for_each ls es (handler e (ctx_err h).1).1 d.1)

  abbrev continue : Done × H → (H → Done × H) → Done × H
  continue (ok _, h) k = k h
  continue (err e, h) k = (err e, h)

  replay_lines-append :
      (xs ys : List Text) (h : H)
      → replay_lines codec ctx_err handler (xs ++ ys) h
        ≡ continue (replay_lines codec ctx_err handler xs h) (replay_lines codec ctx_err handler ys)
  unfolding replay_lines
  replay_lines-append [] ys h = refl
  replay_lines-append (x ∷ xs) ys h = elim (Result-cases (codec.unmarshal x)) [
    | inl (e, decoded) ↦ ground (arith, replay_lines-append xs ys (handler e (ctx_err h).1).1)
    | inr (e, skipped) ↦ ground (arith, replay_lines-append xs ys (ctx_err h).1)
  ]

  replay_segment-lines :
      (env : ReplayEnv) (n : Text) (d : Dir) (h : H)
      → IsCalm env
      → IsPresent d n
      → Fits (split_lines (content_of n d))
      → replay_segment codec ctx_err handler env n d h
        ≡ replay_lines codec ctx_err handler (split_lines (content_of n d)) h
  unfolding replay_segment replay_content segment_tokens
  replay_segment-lines env n d h calm (c, p) fits =
      let ls = split_lines (content_of n d) in
      let s = scan_lines ls (ok tt) fits.0 fits.1 in
      ground (arith, calm.open_file n, calm.read n, s, p)

  then_rest :
      (p : Done × H) (f g : H → Done × H)
      → f p.1 ≡ g p.1
      → elim p.0 [ err e ↦ (err e, p.1) | ok _ ↦ f p.1 ] ≡ continue p g
  then_rest (ok _, h) f g e = e
  then_rest (err x, h) f g e = refl

  replay_segments-lines :
      (env : ReplayEnv) (ns : List Text) (d : Dir) (h : H)
      → IsCalm env
      → All (IsPresent d) ns
      → Fits (lines_in d ns)
      → replay_segments codec ctx_err handler env ns d h
        ≡ replay_lines codec ctx_err handler (lines_in d ns) h
  unfolding replay_segments replay_lines concat_map
  replay_segments-lines env [] d h calm here fits = refl
  replay_segments-lines env (n ∷ ns) d h calm here fits =
      let xs = split_lines (content_of n d) in
      let ys = lines_in d ns in
      let first : Fits xs = (All-left _ xs ys fits.0, All-left _ xs ys fits.1) in
      let rest : Fits ys = (All-right _ xs ys fits.0, All-right _ xs ys fits.1) in
      let f = replay_segments codec ctx_err handler env ns d in
      let g = replay_lines codec ctx_err handler ys in
      let p = replay_segment codec ctx_err handler env n d h in
      then_rest p f g (replay_segments-lines env ns d p.1 calm here.1 rest)
      ∙ ap (λ q. continue q g) (replay_segment-lines env n d h calm here.0 first)
      ∙ sym (replay_lines-append xs ys h)

  -- If the log's lines fit the scanner and decode to these events, and no call of the operating
  -- system fails, then `Replay` calls the handler for exactly these events in order, until it fails
  -- or the context ends, returns that outcome, leaves the files as they are, and gives up the
  -- handle.
  pub replay-for_each :
      (env : ReplayEnv) (w : Wal) (es : List LogEvent) (h : H)
      → IsCalm env
      → Fits (log_lines w.dir)
      → Decodes codec (log_lines w.dir) es
      → replay codec ctx_err handler env (w, h)
        ≡ ((for_each es h).0, (record w { current = none; is_closed = false }, (for_each es h).1))
  unfolding replay log_lines
  replay-for_each env w es h calm fits d =
      let ns = sorted_segments w.dir in
      let e = replay_segments-lines env ns w.dir h calm (sorted_segments-IsPresent w.dir) fits in
      let f = replay_lines-for_each (lines_in w.dir ns) es h d in
      ground (arith, calm.read_dir, e, f)
