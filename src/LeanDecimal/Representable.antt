-- ===== src/LeanDecimal/Representable.antt =====
-- Which decimals src/execution/lean_decimal.py transports: those that a .NET decimal holds.
use agentic_quant.Prelude.Int.{ℤ, pos, negsuc, pos_part, neg_part}
use agentic_quant.Prelude.{
  ℕ, zero, suc, ◌+◌, ◌-◌, ◌*◌, ◌/◌, ◌%◌, ◌^◌, ◌≤◌, ◌<◌, ◌≡◌, ◌≢◌, ◌⊎◌, ◌↔◌, refl, sym, ap, ◌∙◌,
  arith, Bool, false, not, ◌&&◌, ltb, leb, ◌==◌, inl, inr, Bool-cases,
}
use agentic_quant.Prelude.Result.{ok}
use native.Mathlib.Nat.{pow-succ', mul-div_cancel}
use agentic_quant.LeanDecimal.{
  DecimalTuple, Words, IsWord, unsigned_word, mantissa, SameValue, strip, strip_value, digit_count,
  words_of, fit_words, scaled_bits, decimal_bits, decimal_bits_back,
}

pow_positive : (k : ℕ) → 0 < 10 ^ k
pow_positive zero = omega arith
pow_positive (suc k) = rw (pow-succ' 10 k) (let ih = pow_positive k in omega (arith, ih))

pow_add : (a b : ℕ) → 10 ^ (a + b) ≡ 10 ^ a * 10 ^ b
pow_add a zero = rw (let e : a + 0 ≡ a = omega arith in e) (omega arith)
pow_add a (suc b) =
    let e : a + suc b ≡ suc (a + b) = omega arith in
    rw (e, pow-succ' 10 (a + b), pow-succ' 10 b, pow_add a b) (omega arith)

cancel_factor : (a b p : ℕ) → 0 < p → a * p ≡ b * p → a ≡ b
cancel_factor a b p positive e =
    sym (mul-div_cancel a positive) ∙ ap (λ (x : ℕ). x / p) e ∙ mul-div_cancel b positive

-- Zeros are left only where the exponent has come up to zero.
strip_canonical : (n c : ℕ) → ((strip n c).1 ≡ 0) ⊎ ((strip n c).0 % 10 ≢ 0)
unfolding strip
strip_canonical zero c = inl refl
strip_canonical (suc n) c = elim (Bool-cases (c % 10 == 0)) [
  | inl tens ↦ rw tens (strip_canonical n (c / 10))
  | inr kept ↦ rw kept (inr (λ e. ground arith))
]

-- The length of a number's digits, for whatever fuel; and that the number itself is enough.
digit_count_lower : (fuel c : ℕ) → 0 < c → 10 ^ digit_count fuel c ≤ 10 * c
unfolding digit_count
digit_count_lower zero c h = omega (arith, h)
digit_count_lower (suc fuel) c h = elim (Bool-cases (ltb c 10)) [
  | inl short ↦ rw short (omega (arith, h))
  | inr long ↦ rw long (
      let ih = digit_count_lower fuel (c / 10) (ground (arith, long)) in
      let e : 10 ^ (1 + digit_count fuel (c / 10)) ≡ 10 * 10 ^ digit_count fuel (c / 10) =
        pow_add 1 (digit_count fuel (c / 10)) in
      omega (arith, ih, e))
]

digit_count_upper : (fuel c : ℕ) → c ≤ fuel → c < 10 ^ digit_count fuel c
unfolding digit_count
digit_count_upper zero c h = omega (arith, h)
digit_count_upper (suc fuel) c h = elim (Bool-cases (ltb c 10)) [
  | inl short ↦ rw short (ground (arith, short))
  | inr long ↦ rw long (
      let big : 10 ≤ c = ground (arith, long) in
      let ih = digit_count_upper fuel (c / 10) (omega (arith, h, big)) in
      let e : 10 ^ (1 + digit_count fuel (c / 10)) ≡ 10 * 10 ^ digit_count fuel (c / 10) =
        pow_add 1 (digit_count fuel (c / 10)) in
      omega (arith, ih, e))
]

-- What a .NET decimal holds: a 96-bit integer over a power of ten of at most 28 places.
pub record Representable (d : DecimalTuple) : Type 0 where
  pub integer : ℕ
  pub places : ℕ
  pub small : integer < 2 ^ 96
  pub few : places ≤ 28
  pub value :
      integer * 10 ^ neg_part d.exponent ≡ d.coefficient * 10 ^ pos_part d.exponent * 10 ^ places

product_le : (a b p : ℕ) → a ≤ b → a * p ≤ b * p
product_le a b p h = grind arith

-- The stripped coefficient over its places is the number that was to be held.
stripped_same :
    (m s c' t c p : ℕ) → 0 < p → c' * p ≡ c * 10 ^ t → m * p ≡ c * 10 ^ s → c' * 10 ^ s ≡ m * 10 ^ t
stripped_same m s c' t c p positive e f =
    cancel_factor (c' * 10 ^ s) (m * 10 ^ t) p positive
      (omega (arith, ap (λ (x : ℕ). x * 10 ^ s) e, ap (λ (x : ℕ). x * 10 ^ t) f))

le_product : (c p : ℕ) → 0 < p → c ≤ c * p
le_product c p h = grind arith

-- With no more places than asked for, the coefficient is a divisor of the integer.
fewer_places : (m c' t k : ℕ) → c' * 10 ^ (t + k) ≡ m * 10 ^ t → c' ≤ m
fewer_places m c' t k e =
    let e1 : c' * 10 ^ k * 10 ^ t ≡ m * 10 ^ t =
      omega (arith, ap (λ (x : ℕ). c' * x) (pow_add t k), e) in
    let e2 = cancel_factor (c' * 10 ^ k) m (10 ^ t) (pow_positive t) e1 in
    let grown = le_product c' (10 ^ k) (pow_positive k) in omega (arith, e2, grown)

-- More places than asked for would leave a zero at the end.
more_places : (m s c' k : ℕ) → c' * 10 ^ s ≡ m * 10 ^ (s + suc k) → c' % 10 ≡ 0
more_places m s c' k e =
    let split : 10 ^ (s + suc k) ≡ 10 ^ s * (10 * 10 ^ k) =
      pow_add s (suc k) ∙ ap (λ (x : ℕ). 10 ^ s * x) (pow-succ' 10 k) in
    let e1 : c' * 10 ^ s ≡ 10 * (m * 10 ^ k) * 10 ^ s =
      omega (arith, ap (λ (x : ℕ). m * x) split, e) in
    let e2 = cancel_factor c' (10 * (m * 10 ^ k)) (10 ^ s) (pow_positive s) e1 in omega (arith, e2)

stripped_fits :
    (m s c' t : ℕ) → c' * 10 ^ s ≡ m * 10 ^ t → (t ≡ 0) ⊎ (c' % 10 ≢ 0) → (t ≤ s) × (c' ≤ m)
stripped_fits m s c' t e canonical = elim (Bool-cases (leb t s)) [
  | inl within ↦
      let le : t ≤ s = ground (arith, within) in
      let e1 : s ≡ t + (s - t) = omega (arith, le) in
      (le, fewer_places m c' t (s - t) (ap (λ (x : ℕ). c' * 10 ^ x) (sym e1) ∙ e))
  | inr beyond ↦
      let gt : s < t = ground (arith, beyond) in
      let e1 : t ≡ s + suc (t - s - 1) = omega (arith, gt) in
      absurd (elim canonical [
        | inl at_zero ↦ omega (arith, gt, at_zero)
        | inr kept ↦ kept (more_places m s c' (t - s - 1) (e ∙ ap (λ (x : ℕ). m * 10 ^ x) e1))
      ])
]

fit_words_returns :
    (c : ℕ) (negative : Bool) (scale : ℕ)
    → scale ≤ 28
    → c < 2 ^ 96
    → fit_words c negative scale ≡ ok (words_of c negative scale)
unfolding fit_words
fit_words_returns c negative scale few small = ground arith

below_negative_bits :
    (d : DecimalTuple) (n : ℕ)
    → d.exponent ≡ negsuc n
    → Representable d
    → (w : Words) × (scaled_bits d.coefficient (negsuc n) d.negative ≡ ok w)
unfolding scaled_bits
below_negative_bits d n e r =
    let c' = (strip (suc n) d.coefficient).0 in
    let t = (strip (suc n) d.coefficient).1 in
    let held : r.integer * 10 ^ suc n ≡ d.coefficient * 10 ^ r.places =
      omega (arith, rw e at r.value) in
    let same_one =
      stripped_same r.integer r.places c' t d.coefficient (10 ^ suc n) (pow_positive (suc n))
        (strip_value (suc n) d.coefficient) held in
    let (few, small) =
      stripped_fits r.integer r.places c' t same_one (strip_canonical (suc n) d.coefficient) in
    (
      words_of c' d.negative t,
      fit_words_returns c' d.negative t (omega (arith, few, r.few)) (omega (arith, small, r.small)),
    )

small_power : (x : ℕ) → 10 ^ x < 10 ^ 30 → x ≤ 29
small_power x h = elim (Bool-cases (leb x 29)) [
  | inl within ↦ ground (arith, within)
  | inr beyond ↦
      let gt : 30 ≤ x = ground (arith, beyond) in
      let e1 : x ≡ 30 + (x - 30) = omega (arith, gt) in
      let e2 : 10 ^ x ≡ 10 ^ 30 * 10 ^ (x - 30) = ap (λ (y : ℕ). 10 ^ y) e1 ∙ pow_add 30 (x - 30) in
      let grown = pow_positive (x - 30) in absurd (omega (arith, h, e2, grown))
]

few_digits : (c n m : ℕ) → 0 < c → c * 10 ^ n ≤ m → m < 2 ^ 96 → digit_count c c + n ≤ 29
few_digits c n m positive le small =
    let lower = digit_count_lower c c positive in
    let grown : 10 ^ digit_count c c * 10 ^ n ≤ 10 * c * 10 ^ n = product_le _ _ (10 ^ n) lower in
    let e = pow_add (digit_count c c) n in
    small_power (digit_count c c + n) (omega (arith, grown, e, le, small))

above_bits :
    (d : DecimalTuple) (n : ℕ)
    → d.exponent ≡ pos n
    → 0 < d.coefficient
    → Representable d
    → (w : Words) × (scaled_bits d.coefficient (pos n) d.negative ≡ ok w)
unfolding scaled_bits
above_bits d n e positive r =
    let c = d.coefficient in
    let held : r.integer ≡ c * 10 ^ n * 10 ^ r.places = omega (arith, rw e at r.value) in
    let grown = le_product (c * 10 ^ n) (10 ^ r.places) (pow_positive r.places) in
    let le : c * 10 ^ n ≤ r.integer = omega (arith, held, grown) in
    let few = few_digits c n r.integer positive le r.small in
    let fits : (not (n == 0) && ltb 29 (digit_count c c + n)) ≡ false = ground (arith, few) in
    (
      words_of (c * 10 ^ n) d.negative 0,
      rw fits
          (fit_words_returns (c * 10 ^ n) d.negative 0 (omega arith) (omega (arith, le, r.small))),
    )

scaled_bits_returns :
    (d : DecimalTuple) (x : ℤ)
    → d.exponent ≡ x
    → 0 < d.coefficient
    → Representable d
    → (w : Words) × (scaled_bits d.coefficient x d.negative ≡ ok w)
scaled_bits_returns d (pos n) e positive r = above_bits d n e positive r
scaled_bits_returns d (negsuc n) e positive r = below_negative_bits d n e r

accepts : (d : DecimalTuple) → Representable d → (w : Words) × (decimal_bits d ≡ ok w)
unfolding decimal_bits
accepts d r = elim (Bool-cases (d.coefficient == 0)) [
  | inl nothing ↦ (words_of 0 d.negative 0, rw (nothing, decimal_bits) refl)
  | inr nonzero ↦
      let (w, returned) =
        scaled_bits_returns d d.exponent refl
          (let positive : 0 < d.coefficient = ground arith in positive) r in
      (w, rw (nonzero, decimal_bits) returned)
]

unsigned_small : (w : ℤ) → IsWord w → unsigned_word w < 2 ^ 32
unsigned_small w h = ground arith

held_by : (d : DecimalTuple) (w : Words) → SameValue d w → Representable d
held_by d w k = record {
  integer = mantissa w;
  places = w.scale;
  small = omega (
    arith,
    unsigned_small w.low k.low,
    unsigned_small w.middle k.middle,
    unsigned_small w.high k.high,
  );
  few = k.short;
  value = k.value;
}

-- `decimal_bits` returns exactly for the decimals that a .NET decimal holds: those whose value is an
-- integer below 2^96 over a power of ten of at most 28 places.
pub decimal_bits_iff :
    (d : DecimalTuple) → ((w : Words) × (decimal_bits d ≡ ok w)) ↔ Representable d
decimal_bits_iff d = (λ (w, returned). held_by d w (decimal_bits_back d w returned), accepts d)
