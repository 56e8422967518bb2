-- ===== src/Wal/Log/LongLine.antt =====
-- A line that the scanner's buffer cannot take
-- (internal/adapter/repository/wal/wal_repository.go).
use mathlib.Core.Path.{subst}
use watch_tower.Common.{
  ◌≤◌, ◌≡◌, refl, ap, ◌∙◌, Bool, true, false, ◌||◌, none, List, [], ◌∷◌, ◌++◌, arith, leb, length,
  concat_map, Text, Done, ok, err, too_long, Op,
}
use watch_tower.Scanner.{max_token, split_lines, scan}
use watch_tower.Domain.{LogEvent}
use watch_tower.Domain.Codec.{Codec, CodecLaws}
use watch_tower.Wal.Files.{Dir, content_of, sorted_segments}
use watch_tower.Wal.Segments.{Wal}
use watch_tower.Wal.Methods.{
  WriteEnv, write, ReplayEnv, segment_tokens, replay_content, replay_segment, replay_segments,
  replay,
}
use watch_tower.Wal.Log.{log_lines, lines_in, IsReady}
use watch_tower.Wal.Log.Write.{IsAdvancing}
use watch_tower.Wal.Log.Accept.{write_acknowledged}

pub has_long : List Text → Bool
has_long [] = false
has_long (l ∷ ls) = leb max_token (length l) || has_long ls

has_long-append : (xs ys : List Text) → has_long (xs ++ ys) ≡ (has_long xs || has_long ys)
unfolding has_long
has_long-append [] ys = refl
has_long-append (x ∷ xs) ys = ground (arith, has_long-append xs ys)

has_long-snoc : (xs : List Text) (l : Text) → max_token ≤ length l → has_long (xs ++ l ∷ []) ≡ true
unfolding has_long
has_long-snoc [] l h = ground arith
has_long-snoc (x ∷ xs) l h = ground (arith, has_long-snoc xs l h)

scan_long : (ls : List Text) (end : Done) → has_long ls ≡ true → (scan ls end).1 ≡ err too_long
unfolding has_long scan
scan_long [] end h = ground arith
scan_long (l ∷ ls) end h = ground (arith, scan_long ls end)

module _ {H : Type 0} (codec : Codec) (ctx_err : Op H Unit) (handler : LogEvent → Op H Unit) where
  segment_long :
      (env : ReplayEnv) (n : Text) (d : Dir) (h : H)
      → env.read n ≡ none
      → has_long (split_lines (content_of n d)) ≡ true
      → (replay_segment codec ctx_err handler env n d h).0 ≡ ok tt
      → ⊥
  unfolding replay_segment replay_content segment_tokens
  segment_long env n d h calm long done =
      ground (arith, scan_long (split_lines (content_of n d)) (ok tt) long)

  segments_long :
      (env : ReplayEnv) (ns : List Text) (d : Dir) (h : H)
      → ((n : Text) → env.read n ≡ none)
      → has_long (lines_in d ns) ≡ true
      → (replay_segments codec ctx_err handler env ns d h).0 ≡ ok tt
      → ⊥
  unfolding replay_segments concat_map has_long
  segments_long env [] d h calm long done = cc
  segments_long env (n ∷ ns) d h calm long done =
      let step = replay_segment codec ctx_err handler env n d h in
      ground (
        arith,
        has_long-append (split_lines (content_of n d)) (lines_in d ns),
        segment_long env n d h (calm n),
        segments_long env ns d step.1 calm,
      )

  -- While a line of 64 KiB or more is in the log, no replay succeeds, whatever the handler does, if
  -- the reads themselves do not fail.
  pub replay_blocked :
      (env : ReplayEnv) (w : Wal) (h : H)
      → ((n : Text) → env.read n ≡ none)
      → has_long (log_lines w.dir) ≡ true
      → (replay codec ctx_err handler env (w, h)).0 ≡ ok tt
      → ⊥
  unfolding replay log_lines
  replay_blocked env w h calm long done =
      ground (arith, segments_long env (sorted_segments w.dir) w.dir h calm long)

  -- `Write` accepts an event whatever its size within the budget, and `Replay` reads lines through
  -- a scanner with the default buffer: once an event with an encoding of 64 KiB or more is
  -- accepted by a ready log, the next replay returns an error, whatever the handler does, if the
  -- reads themselves do not fail.
  pub long_event_blocks_replay :
      (laws : CodecLaws codec) (wenv : WriteEnv) (event : LogEvent) (w : Wal) (body : Text)
      (env : ReplayEnv) (h : H)
      → IsReady w
      → IsAdvancing wenv w.dir
      → codec.marshal event ≡ ok body
      → max_token ≤ length body
      → (write codec wenv event w).0 ≡ ok tt
      → ((n : Text) → env.read n ≡ none)
      → ¬ ((replay codec ctx_err handler env ((write codec wenv event w).1, h)).0 ≡ ok tt)
  long_event_blocks_replay laws wenv event w body env h r a encoded big accepted calm =
      let (body', encoded', view, _) = write_acknowledged codec laws wenv event w r a accepted in
      let same : body ≡ body' = cc (encoded, encoded') in
      replay_blocked env (write codec wenv event w).1 h calm (
        ap has_long view
        ∙ has_long-snoc (log_lines w.dir) body' (subst (λ b. max_token ≤ length b) same big))
