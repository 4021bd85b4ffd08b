-- ===== src/LeanDecimal.antt =====
-- src/execution/lean_decimal.py: `decimal_bits`, the words of a .NET decimal.
--
-- A finite decimal is what `as_tuple` gives, its digits read as one number. The constructor of
-- `System.Decimal` is not in the repository; `Words.mantissa` is what its documentation says of the
-- three words, that they are the low, middle and high 32 bits of an unsigned 96-bit integer.
pub mod Representable
use agentic_quant.Prelude.Int.{ℤ, pos, negsuc, pos_part, neg_part, sub_ℕ}
use agentic_quant.Prelude.{
  ℕ, zero, suc, ◌+◌, ◌-◌, ◌*◌, ◌/◌, ◌%◌, ◌^◌, ◌≤◌, ◌<◌, ◌≡◌, refl, sym, ap, subst, ◌∙◌, arith, Bool,
  not, ◌&&◌, ◌||◌, ltb, leb, ◌==◌, if◌then◌else◌, inl, inr, Bool-cases,
}
use native.Mathlib.Nat.{pow-succ'}
use agentic_quant.Prelude.Result.{Result, ok, ◌>>◌, raise_if, raise_if-eq-ok}

pub record DecimalTuple : Type 0 where
  pub negative : Bool
  pub coefficient : ℕ
  pub exponent : ℤ

-- The arguments of the constructor.
pub record Words : Type 0 where
  pub low : ℤ
  pub middle : ℤ
  pub high : ℤ
  pub negative : Bool
  pub scale : ℕ

pub data LeanError : Type 0 where
  not_representable : LeanError

-- The loop that drops zeros while the exponent is negative: the coefficient, and how far below zero
-- the exponent still is.
unfoldable pub strip : ℕ → ℕ → ℕ × ℕ
strip zero c = (c, 0)
strip (suc n) c = let rest = strip n (c / 10) in if c % 10 == 0 then rest else (c, suc n)

-- `len(str(c))`
unfoldable pub digit_count : ℕ → ℕ → ℕ
digit_count zero c = 1
digit_count (suc fuel) c = let rest = digit_count fuel (c / 10) in if ltb c 10 then 1 else 1 + rest

abbrev word_size : ℕ
word_size = 2 ^ 32

-- `(c >> shift) & 0xFFFFFFFF`, then a signed word.
unfoldable pub signed_word : ℕ → ℤ
signed_word w = if ltb w (2 ^ 31) then pos w else sub_ℕ w word_size

abbrev pub words_of : ℕ → Bool → ℕ → Words
words_of c negative scale = record {
  low = signed_word (c % word_size);
  middle = signed_word (c / word_size % word_size);
  high = signed_word (c / 2 ^ 64 % word_size);
  negative = negative;
  scale = scale;
}

-- The guards on the size, after the coefficient is an integer of the scale.
unfoldable pub fit_words : ℕ → Bool → ℕ → Result LeanError Words
fit_words c negative scale = do
  raise_if (ltb 28 scale || leb (2 ^ 96) c) not_representable
  ok (words_of c negative scale)

unfoldable pub scaled_bits : ℕ → ℤ → Bool → Result LeanError Words
scaled_bits c (negsuc n) negative =
    let stripped = strip (suc n) c in fit_words stripped.0 negative stripped.1
scaled_bits c (pos n) negative = do
  raise_if (not (n == 0) && ltb 29 (digit_count c c + n)) not_representable
  fit_words (c * 10 ^ n) negative 0

-- `decimal_bits`
unfoldable pub decimal_bits : DecimalTuple → Result LeanError Words
decimal_bits d =
    if d.coefficient == 0
    then ok (words_of 0 d.negative 0)
    else scaled_bits d.coefficient d.exponent d.negative

-- The unsigned word that a signed one stands for.
abbrev pub unsigned_word : ℤ → ℕ
unsigned_word (pos n) = n
unsigned_word (negsuc n) = word_size - suc n

abbrev pub mantissa : Words → ℕ
mantissa w = unsigned_word w.low + unsigned_word w.middle * 2 ^ 32 + unsigned_word w.high * 2 ^ 64

-- A signed 32-bit word.
abbrev pub IsWord : ℤ → Type 0
IsWord w = (pos_part w < 2 ^ 31) × (neg_part w ≤ 2 ^ 31)

signed_word_back : (w : ℕ) → w < 2 ^ 32 → unsigned_word (signed_word w) ≡ w
unfolding signed_word
signed_word_back w h = ground arith

signed_word-IsWord : (w : ℕ) → w < 2 ^ 32 → IsWord (signed_word w)
unfolding signed_word
signed_word-IsWord w h = ground arith

three_words :
    (c : ℕ)
    → c < 2 ^ 96
    → c % 2 ^ 32 + c / 2 ^ 32 % 2 ^ 32 * 2 ^ 32 + c / 2 ^ 64 % 2 ^ 32 * 2 ^ 64 ≡ c
three_words c h = omega arith

-- Stripping zeros keeps the value and does not go below the exponent's distance from zero.
one_more_zero : (m c p q : ℕ) → c % 10 ≡ 0 → m * p ≡ c / 10 * q → m * (10 * p) ≡ c * q
one_more_zero m c p q tens e =
    let tenfold : 10 * (c / 10) ≡ c = omega arith in omega (arith, e, ap (λ (x : ℕ). x * q) tenfold)

strip_value : (n c : ℕ) → (strip n c).0 * 10 ^ n ≡ c * 10 ^ (strip n c).1
unfolding strip
strip_value zero c = refl
strip_value (suc n) c = elim (Bool-cases (c % 10 == 0)) [
  | inr kept ↦ rw kept refl
  | inl tens ↦
      rw (tens, pow-succ' 10 n)
        (one_more_zero (strip n (c / 10)).0 c (10 ^ n) (10 ^ (strip n (c / 10)).1) (ground arith)
          (strip_value n (c / 10)))
]

-- What the words of a coefficient stand for.
pub record Transported (c : ℕ) (negative : Bool) (scale : ℕ) (w : Words) : Type 0 where
  pub value : mantissa w ≡ c
  pub sign : w.negative ≡ negative
  pub places : w.scale ≡ scale
  pub short : w.scale ≤ 28
  pub low : IsWord w.low
  pub middle : IsWord w.middle
  pub high : IsWord w.high

words_of-Transported :
    (c : ℕ) (negative : Bool) (scale : ℕ)
    → scale ≤ 28
    → c < 2 ^ 96
    → Transported c negative scale (words_of c negative scale)
words_of-Transported c negative scale few small =
    let low : c % 2 ^ 32 < 2 ^ 32 = omega arith in
    let middle : c / 2 ^ 32 % 2 ^ 32 < 2 ^ 32 = omega arith in
    let high : c / 2 ^ 64 % 2 ^ 32 < 2 ^ 32 = omega arith in
    record {
      value =
          rw
            (
              signed_word_back (c % 2 ^ 32) low,
              signed_word_back (c / 2 ^ 32 % 2 ^ 32) middle,
              signed_word_back (c / 2 ^ 64 % 2 ^ 32) high,
            )
            (three_words c small);
      sign = refl;
      places = refl;
      short = few;
      low = signed_word-IsWord (c % 2 ^ 32) low;
      middle = signed_word-IsWord (c / 2 ^ 32 % 2 ^ 32) middle;
      high = signed_word-IsWord (c / 2 ^ 64 % 2 ^ 32) high;
    }

fit_words-Transported :
    (c : ℕ) (negative : Bool) (scale : ℕ) (w : Words)
    → fit_words c negative scale ≡ ok w
    → Transported c negative scale w
unfolding fit_words
fit_words-Transported c negative scale w h =
    let (fits, h1) = raise_if-eq-ok (ltb 28 scale || leb (2 ^ 96) c) not_representable _ h in
    let last : words_of c negative scale ≡ w = ground (arith, h1) in
    subst (Transported c negative scale) last
      (words_of-Transported c negative scale (ground arith) (ground arith))

-- The words that are returned stand for the decimal itself: the same sign, and the same value once
-- both exponents are cleared. Each is a signed 32-bit word, and the scale is at most 28.
pub record SameValue (d : DecimalTuple) (w : Words) : Type 0 where
  pub value :
      mantissa w * 10 ^ neg_part d.exponent
      ≡ d.coefficient * 10 ^ pos_part d.exponent * 10 ^ w.scale
  pub sign : w.negative ≡ d.negative
  pub short : w.scale ≤ 28
  pub low : IsWord w.low
  pub middle : IsWord w.middle
  pub high : IsWord w.high

same_value :
    (d : DecimalTuple) (c scale : ℕ) (w : Words)
    → Transported c d.negative scale w
    → c * 10 ^ neg_part d.exponent ≡ d.coefficient * 10 ^ pos_part d.exponent * 10 ^ scale
    → SameValue d w
same_value d c scale w k e = record {
  value =
      ap (λ (x : ℕ). x * 10 ^ neg_part d.exponent) k.value
      ∙ e
      ∙ ap (λ (x : ℕ). d.coefficient * 10 ^ pos_part d.exponent * 10 ^ x) (sym k.places);
  sign = k.sign;
  short = k.short;
  low = k.low;
  middle = k.middle;
  high = k.high;
}

times_one : (a : ℕ) → a * 10 ^ 0 ≡ a
times_one a = omega arith

zero_value :
    (d : DecimalTuple)
    → d.coefficient ≡ 0
    → 0 * 10 ^ neg_part d.exponent ≡ d.coefficient * 10 ^ pos_part d.exponent * 10 ^ 0
zero_value d e = omega (arith, ap (λ (x : ℕ). x * 10 ^ pos_part d.exponent * 10 ^ 0) e)

scaled_bits_value :
    (d : DecimalTuple) (x : ℤ) (w : Words)
    → d.exponent ≡ x
    → scaled_bits d.coefficient x d.negative ≡ ok w
    → SameValue d w
unfolding scaled_bits
scaled_bits_value d (negsuc n) w e h =
    let c = d.coefficient in
    same_value d (strip (suc n) c).0 (strip (suc n) c).1 w
      (fit_words-Transported (strip (suc n) c).0 d.negative (strip (suc n) c).1 w h)
      (rw e
        (strip_value (suc n) c ∙ ap (λ (y : ℕ). y * 10 ^ (strip (suc n) c).1) (sym (times_one c))))
scaled_bits_value d (pos n) w e h =
    let (fits, h1) =
      raise_if-eq-ok (not (n == 0) && ltb 29 (digit_count d.coefficient d.coefficient + n))
        not_representable _ h in
    same_value d (d.coefficient * 10 ^ n) 0 w
      (fit_words-Transported (d.coefficient * 10 ^ n) d.negative 0 w h1) (rw e refl)

-- A decimal that is transported comes back: the words that `decimal_bits` returns have the sign of
-- the decimal and, read as the documented constructor reads them, its value; none is rounded. Each
-- word is a signed 32-bit one, and the scale is at most 28.
pub decimal_bits_back : (d : DecimalTuple) (w : Words) → decimal_bits d ≡ ok w → SameValue d w
unfolding decimal_bits
decimal_bits_back d w h = elim (Bool-cases (d.coefficient == 0)) [
  | inr nonzero ↦ scaled_bits_value d d.exponent w refl (rw (nonzero, decimal_bits) at h)
  | inl nothing ↦
      let none_left : d.coefficient ≡ 0 = ground arith in
      let last : words_of 0 d.negative 0 ≡ w = ground (arith, rw (nothing, decimal_bits) at h) in
      same_value d 0 0 w
        (subst (Transported 0 d.negative 0) last
          (words_of-Transported 0 d.negative 0 (omega arith) (omega arith)))
        (zero_value d none_left)
]
