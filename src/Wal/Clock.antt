-- ===== src/Wal/Clock.antt =====
-- The names of segments and the clock that they are made from
-- (internal/adapter/repository/wal/wal_repository.go).
use watch_tower.Common.{
  ℕ, zero, suc, ◌+◌, ◌-◌, ◌*◌, ◌/◌, ◌%◌, ◌^◌, ◌≤◌, ◌<◌, ◌≡◌, refl, sym, ap, ◌∙◌, true, [], ◌∷◌,
  ◌++◌, arith, leb, if◌then◌else◌, length, length-append, Text, codes, text_le, text_le_refl,
  text_eq, text_eq_iff,
}
use watch_tower.Wal.Files.{digits_from, segment_name, segment_prefix}

-- The number that a text of digits stands for, behind the digits of `n`.
unfoldable pub value_from : ℕ → Text → ℕ
value_from n [] = n
value_from n (d ∷ ds) = value_from (n * 10 + (d - 48)) ds

value_from-snoc :
    (n : ℕ) (ds : Text) (d : ℕ) → value_from n (ds ++ d ∷ []) ≡ value_from n ds * 10 + (d - 48)
unfolding value_from
value_from-snoc n [] d = refl
value_from-snoc n (e ∷ ds) d = value_from-snoc (n * 10 + (e - 48)) ds d

-- Fuel above the number is enough for its digits: they read back as the number.
pub digits_from-value : (f n : ℕ) → n < f → value_from 0 (digits_from f n) ≡ n
unfolding digits_from value_from
digits_from-value zero n h = absurd (omega arith)
digits_from-value (suc f) n h =
    ground (
      arith,
      digits_from-value f (n / 10),
      value_from-snoc 0 (digits_from f (n / 10)) (48 + n % 10),
    )

-- More fuel changes nothing.
digits_from-fuel : (f g n : ℕ) → n < f → n < g → digits_from f n ≡ digits_from g n
unfolding digits_from
digits_from-fuel zero g n h k = absurd (omega arith)
digits_from-fuel (suc f) zero n h k = absurd (omega arith)
digits_from-fuel (suc f) (suc g) n h k = ground (arith, digits_from-fuel f g (n / 10))

text_le-snoc :
    (s t : Text) (a b : ℕ)
    → length s ≡ length t
    → text_le (s ++ a ∷ []) (t ++ b ∷ []) ≡ (if text_eq s t then leb a b else text_le s t)
unfolding text_le text_eq
text_le-snoc [] [] a b h = ground arith
text_le-snoc [] (y ∷ t) a b h = absurd (omega arith)
text_le-snoc (x ∷ s) [] a b h = absurd (omega arith)
text_le-snoc (x ∷ s) (y ∷ t) a b h = ground (arith, text_le-snoc s t a b)

-- What stands behind texts of one length does not order them, where it is the same.
text_le-append : (s t u : Text) → length s ≡ length t → text_le (s ++ u) (t ++ u) ≡ text_le s t
unfolding text_le
text_le-append [] [] u h = text_le_refl u
text_le-append [] (y ∷ t) u h = absurd (omega arith)
text_le-append (x ∷ s) [] u h = absurd (omega arith)
text_le-append (x ∷ s) (y ∷ t) u h = ground (arith, text_le-append s t u)

text_le-prefix : (p s t : Text) → text_le (p ++ s) (p ++ t) ≡ text_le s t
unfolding text_le
text_le-prefix [] s t = refl
text_le-prefix (x ∷ p) s t = ground (arith, text_le-prefix p s t)

power_pos : (k : ℕ) → 1 ≤ 10 ^ k
power_pos zero = omega arith
power_pos (suc k) = omega (arith, power_pos k)

-- A number of more than one digit has one digit less behind a division by ten.
record IsTenth (k n : ℕ) : Type 0 where
  long : 10 ≤ n
  low : 10 ^ k ≤ n / 10
  high : n / 10 < 10 ^ suc k

tenth : (k n : ℕ) → 10 ^ suc k ≤ n → n < 10 ^ suc (suc k) → IsTenth k n
tenth k n low high = record {
  long = omega (arith, power_pos k);
  low = omega arith;
  high = omega arith;
}

length-digits_from :
    (k f n : ℕ) → 10 ^ k ≤ n → n < 10 ^ suc k → n < f → length (digits_from f n) ≡ suc k
unfolding digits_from
length-digits_from k zero n low high h = absurd (omega arith)
length-digits_from zero (suc f) n low high h = ground arith
length-digits_from (suc k) (suc f) n low high h =
    let t = tenth k n low high in
    let shorter = length-digits_from k f (n / 10) t.low t.high (omega (arith, t.long)) in
    ground (arith, t.long, shorter, length-append (digits_from f (n / 10)) ((48 + n % 10) ∷ []))

digits_from-eq :
    (f g m n : ℕ) → m < f → n < g → text_eq (digits_from f m) (digits_from g n) ≡ true → m ≡ n
digits_from-eq f g m n hm hn same =
    sym (digits_from-value f m hm)
    ∙ ap (value_from 0) ((text_eq_iff (digits_from f m) (digits_from g n)).0 same)
    ∙ digits_from-value g n hn

digits_from-same :
    (f g m n : ℕ) → m < f → n < g → m ≡ n → text_eq (digits_from f m) (digits_from g n) ≡ true
digits_from-same f g m n hm hn same =
    (text_eq_iff (digits_from f m) (digits_from g n)).1
      (digits_from-fuel f g m hm (omega arith) ∙ ap (digits_from g) same)

digits_from-order :
    (k f g m n : ℕ)
    → 10 ^ k ≤ m
    → m < 10 ^ suc k
    → m < f
    → 10 ^ k ≤ n
    → n < 10 ^ suc k
    → n < g
    → text_le (digits_from f m) (digits_from g n) ≡ leb m n
unfolding digits_from text_le
digits_from-order k zero g m n lm um fm ln un fn = absurd (omega arith)
digits_from-order k (suc f) zero m n lm um fm ln un fn = absurd (omega arith)
digits_from-order zero (suc f) (suc g) m n lm um fm ln un fn = ground arith
digits_from-order (suc k) (suc f) (suc g) m n lm um fm ln un fn =
    let a = tenth k m lm um in
    let b = tenth k n ln un in
    let fm' : m / 10 < f = omega (arith, a.long) in
    let fn' : n / 10 < g = omega (arith, b.long) in
    let s = digits_from f (m / 10) in
    let t = digits_from g (n / 10) in
    let same_length : length s ≡ length t =
      length-digits_from k f (m / 10) a.low a.high fm'
      ∙ sym (length-digits_from k g (n / 10) b.low b.high fn') in
    ground (
      arith,
      a.long,
      b.long,
      text_le-snoc s t (48 + m % 10) (48 + n % 10) same_length,
      digits_from-order k f g (m / 10) (n / 10) a.low a.high fm' b.low b.high fn',
      digits_from-eq f g (m / 10) (n / 10) fm' fn',
      digits_from-same f g (m / 10) (n / 10) fm' fn',
    )

-- The nanoseconds since the epoch have 19 digits from September 2001 to November 2286.
abbrev pub IsCurrent : ℕ → Type 0
IsCurrent t = (10 ^ 18 ≤ t) × (t < 10 ^ 19)

digits_of : ℕ → Text
digits_of n = digits_from (suc n) n

-- The byte order of the names of segments, in which `Replay` reads them, is the order of the times
-- at which they were created, for times of 19 digits.
pub segment_name-order :
    (m n : ℕ) → IsCurrent m → IsCurrent n → text_le (segment_name m) (segment_name n) ≡ leb m n
unfolding segment_name digits_of
segment_name-order m n hm hn =
    text_le-prefix segment_prefix (digits_of m ++ codes ".log") (digits_of n ++ codes ".log")
    ∙ text_le-append (digits_of m) (digits_of n) (codes ".log") (
        length-digits_from 18 (suc m) m hm.0 hm.1 (omega arith)
        ∙ sym (length-digits_from 18 (suc n) n hn.0 hn.1 (omega arith)))
    ∙ digits_from-order 18 (suc m) (suc n) m n hm.0 hm.1 (omega arith) hn.0 hn.1 (omega arith)
