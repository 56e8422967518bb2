-- ===== src/Common/Texts.antt =====
-- Texts and bytes as lists of codes: equality, prefixes, infixes and the lexicographic order.
use Prim.Native.Nat.{ℕ, compare, Ordering}
use Prim.Native.Char.{code}
use Prim.Native.String.{String}
use mathlib.Core.Path.{◌≡◌, refl}
use mathlib.Core.Logic.{◌↔◌}
use mathlib.Core.Bool.{Bool, true, false, ◌&&◌, ◌||◌}
use mathlib.Core.List.{List, [], ◌∷◌, ◌++◌}
use native.Mathlib.Omega.{arith}
use watch_tower.Common.Tests.{◌==◌, if◌then◌else◌}
use watch_tower.Common.Lists.{All}

abbrev pub Text : Type 0
Text = List ℕ

-- The codes of a literal, which are its bytes, since each literal of the program is ASCII.
abbrev pub codes : String → Text
codes String.[] = []
codes (String.◌∷◌ c s) = code c ∷ codes s

unfoldable pub text_eq : Text → Text → Bool
text_eq [] [] = true
text_eq (a ∷ s) (b ∷ t) = (a == b) && text_eq s t
text_eq _ _ = false

text_eq_sound : (s t : Text) → text_eq s t ≡ true → s ≡ t
unfolding text_eq
text_eq_sound [] [] h = refl
text_eq_sound (a ∷ s) (b ∷ t) h = ground (arith, text_eq_sound s t)
text_eq_sound _ _ h = ground arith

pub text_eq_refl : (s : Text) → text_eq s s ≡ true
unfolding text_eq
text_eq_refl [] = refl
text_eq_refl (a ∷ s) = ground (arith, text_eq_refl s)

pub text_eq_iff : (s t : Text) → (text_eq s t ≡ true) ↔ (s ≡ t)
text_eq_iff s t = (text_eq_sound s t, λ p. rw (← p) (text_eq_refl s))

-- strings.HasPrefix(s, p), called `has_prefix p s`.
unfoldable pub has_prefix : Text → Text → Bool
has_prefix [] s = true
has_prefix (a ∷ p) [] = false
has_prefix (a ∷ p) (b ∷ s) = (a == b) && has_prefix p s

-- strings.Contains(s, p), called `contains p s`.
unfoldable pub contains : Text → Text → Bool
unfolding has_prefix
contains p [] = has_prefix p []
contains p (b ∷ s) = has_prefix p (b ∷ s) || contains p s

-- What a text contains, it contains behind any prefix.
pub contains-append : (p q s : Text) → contains p s ≡ true → contains p (q ++ s) ≡ true
unfolding contains
contains-append p [] s h = h
contains-append p (a ∷ q) s h = ground (arith, contains-append p q s h)

-- s <= t in the byte order of Go's strings.
unfoldable pub text_le : Text → Text → Bool
text_le [] t = true
text_le (a ∷ s) [] = false
text_le (a ∷ s) (b ∷ t) = elim (compare a b) [
  | Ordering.lt ↦ true
  | Ordering.eq ↦ text_le s t
  | Ordering.gt ↦ false
]

pub text_le_refl : (s : Text) → text_le s s ≡ true
unfolding text_le
text_le_refl [] = refl
text_le_refl (a ∷ s) = ground (arith, text_le_refl s)

pub text_le_total : (s t : Text) → text_le s t ≡ false → text_le t s ≡ true
unfolding text_le
text_le_total [] t h = ground arith
text_le_total (a ∷ s) [] h = refl
text_le_total (a ∷ s) (b ∷ t) h = ground (arith, text_le_total s t)

pub text_le_antisymm : (s t : Text) → text_le s t ≡ true → text_le t s ≡ true → s ≡ t
unfolding text_le
text_le_antisymm [] [] h k = refl
text_le_antisymm (a ∷ s) (b ∷ t) h k = ground (arith, text_le_antisymm s t)
text_le_antisymm _ _ h k = ground arith

abbrev pub onto_first : ℕ → List Text → List Text
onto_first x [] = (x ∷ []) ∷ []
onto_first x (p ∷ ps) = (x ∷ p) ∷ ps

-- strings.Split with a separator of one byte: the part behind the last one is there also if empty.
unfoldable pub split_at : ℕ → Text → List Text
split_at c [] = [] ∷ []
split_at c (x ∷ xs) = if x == c then [] ∷ split_at c xs else onto_first x (split_at c xs)

-- A part without the separator, and the parts behind it.
pub split_at-append :
    (c : ℕ) (p s : Text)
    → All (λ x. (x == c) ≡ false) p
    → split_at c (p ++ c ∷ s) ≡ p ∷ split_at c s
unfolding split_at
split_at-append c [] s h = ground arith
split_at-append c (x ∷ p) s h = let ih = split_at-append c p s h.1 in rw (h.0, ih) refl

pub split_at-part : (c : ℕ) (p : Text) → All (λ x. (x == c) ≡ false) p → split_at c p ≡ p ∷ []
unfolding split_at
split_at-part c [] h = refl
split_at-part c (x ∷ p) h = let ih = split_at-part c p h.1 in rw (h.0, ih) refl
