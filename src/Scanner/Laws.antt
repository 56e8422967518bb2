-- ===== src/Scanner/Laws.antt =====
-- Lines that are appended whole are scanned as they were written.
use watch_tower.Common.{
  ◌<◌, ◌≡◌, ◌≢◌, refl, ap, true, List, [], ◌∷◌, ◌++◌, arith, length, All, Text, Done,
}
use watch_tower.Scanner.{max_token, split_lines, drop_cr, scan, whole}

-- Behind bytes that end in a line feed the lines start afresh.
pub split_lines-append :
    (s t : Text) → whole s ≡ true → split_lines (s ++ t) ≡ split_lines s ++ split_lines t
unfolding split_lines whole
split_lines-append [] t h = refl
split_lines-append (b ∷ []) t h = ground arith
split_lines-append (b ∷ b' ∷ bs) t h = ground (arith, split_lines-append (b' ∷ bs) t h)

pub whole-append : (s t : Text) → whole t ≡ true → whole s ≡ true → whole (s ++ t) ≡ true
unfolding whole
whole-append [] t h k = h
whole-append (b ∷ []) [] h k = k
whole-append (b ∷ []) (c ∷ t) h k = h
whole-append (b ∷ b' ∷ bs) t h k = whole-append (b' ∷ bs) t h k

pub whole-line : (l : Text) → whole (l ++ 10 ∷ []) ≡ true
unfolding whole
whole-line [] = refl
whole-line (b ∷ []) = refl
whole-line (b ∷ b' ∷ l) = whole-line (b' ∷ l)

-- A line without a line feed in it is one token.
pub split_lines-line :
    (l : Text) → All (λ x. (x ≢ 10) × (x ≢ 13)) l → split_lines (l ++ 10 ∷ []) ≡ l ∷ []
unfolding split_lines
split_lines-line [] h = refl
split_lines-line (b ∷ l) h = ground (arith, split_lines-line l h.1)

pub drop_cr_line : (l : Text) → All (λ x. (x ≢ 10) × (x ≢ 13)) l → drop_cr l ≡ l
unfolding drop_cr
drop_cr_line [] h = refl
drop_cr_line (b ∷ []) h = ground arith
drop_cr_line (b ∷ b' ∷ l) h = ap (◌∷◌ b) (drop_cr_line (b' ∷ l) h.1)

-- Lines that fit and hold no line end are the tokens.
pub scan_lines :
    (ls : List Text) (end : Done)
    → All (All (λ x. (x ≢ 10) × (x ≢ 13))) ls
    → All (λ l. length l < max_token) ls
    → scan ls end ≡ (ls, end)
unfolding scan
scan_lines [] end h k = refl
scan_lines (l ∷ ls) end h k = ground (arith, drop_cr_line l h.0, scan_lines ls end h.1 k.1)
