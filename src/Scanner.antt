-- ===== src/Scanner.antt =====
-- bufio.Scanner with ScanLines and its default buffer, as the WAL's `Replay` and the NDJSON handler
-- use it: lines without their end, up to the first that does not fit the buffer of
-- bufio.MaxScanTokenSize bytes together with its line feed.
pub mod Laws
use watch_tower.Common.{
  ℕ, ◌*◌, Bool, true, false, List, [], ◌∷◌, ltb, ◌==◌, if◌then◌else◌, length, Text, Done, err,
  too_long,
}

-- bufio.MaxScanTokenSize
abbrev pub max_token : ℕ
max_token = 64 * 1024

unfoldable pub cons_first : ℕ → List Text → List Text
cons_first b [] = (b ∷ []) ∷ []
cons_first b (l ∷ ls) = (b ∷ l) ∷ ls

-- The lines of a stream; a last line may lack its line feed.
unfoldable pub split_lines : Text → List Text
unfolding cons_first
split_lines [] = []
split_lines (b ∷ bs) = let rest = split_lines bs in if b == 10 then [] ∷ rest else cons_first b rest

-- One carriage return before the end of the line is dropped.
unfoldable pub drop_cr : Text → Text
drop_cr [] = []
drop_cr (b ∷ []) = if b == 13 then [] else b ∷ []
drop_cr (b ∷ b' ∷ bs) = b ∷ drop_cr (b' ∷ bs)

-- The tokens, and what `Err` returns after the loop; `end` is the error of the reader, if any.
unfoldable pub scan : List Text → Done → List Text × Done
unfolding drop_cr
scan [] end = ([], end)
scan (l ∷ ls) end =
    let (tokens, e) = scan ls end in
    if ltb (length l) max_token then (drop_cr l ∷ tokens, e) else ([], err too_long)

-- Nothing, or bytes that end in a line feed.
unfoldable pub whole : Text → Bool
whole [] = true
whole (b ∷ []) = b == 10
whole (b ∷ b' ∷ bs) = whole (b' ∷ bs)
