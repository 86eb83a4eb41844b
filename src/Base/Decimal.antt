-- ===== src/Base/Decimal.antt =====
-- Numbers as decimals: the conversions `%d` and `%u` of a number that is not negative, `%0wd` with
-- its width, and what the digits say.
use Prim.Native.Nat.{ℕ, zero, suc, ◌+◌, ◌-◌, ◌*◌, ◌/◌, ◌%◌, ◌^◌, ◌≤◌, ◌<◌}
use mathlib.Core.Bool.{true, false}
use mathlib.Core.Logic.{inl, inr}
use mathlib.Core.Path.{◌≡◌, refl, sym, ap, ◌∙◌}
use mathlib.Core.List.{List, [], ◌∷◌, ◌++◌}
use native.Mathlib.Omega.{arith}
use yatwb.Base.Tests.{ltb, if◌then◌else◌, Bool-cases}
use yatwb.Base.Lists.{length, replicate, length-append, length-replicate}
use yatwb.Base.Text.{HasNoNul}

abbrev pub digit : ℕ → ℕ
digit n = 48 + n % 10

-- The digits of a number in front of `rest`; a number has no more digits than `fuel`, or is 0.
unfoldable pub digits_onto : ℕ → ℕ → List ℕ → List ℕ
digits_onto zero n rest = digit n ∷ rest
digits_onto (suc fuel) n rest =
    let more = digits_onto fuel (n / 10) (digit n ∷ rest) in
    if ltb n 10 then digit n ∷ rest else more

-- `%d`, `%u`
abbrev pub decimal : ℕ → List ℕ
decimal n = digits_onto n n []

-- `%0wd`
abbrev pub padded : ℕ → ℕ → List ℕ
padded w n = replicate (w - length (decimal n)) 48 ++ decimal n

-- The number that digits stand for, with `n` before them.
abbrev pub value_onto : ℕ → List ℕ → ℕ
value_onto n [] = n
value_onto n (d ∷ ds) = value_onto (n * 10 + (d - 48)) ds

abbrev pub value : List ℕ → ℕ
value ds = value_onto 0 ds

abbrev pub AreDigits : List ℕ → Type 0
AreDigits [] = Unit {0}
AreDigits (d ∷ ds) = ((48 ≤ d) × (d < 58)) × AreDigits ds

last_digit : (n : ℕ) (rest : List ℕ) → n < 10 → value_onto 0 (digit n ∷ rest) ≡ value_onto n rest
last_digit n rest h = ap (λ k. value_onto k rest) (omega (arith, h))

next_digit : (n : ℕ) (rest : List ℕ) → value_onto (n / 10) (digit n ∷ rest) ≡ value_onto n rest
next_digit n rest = ap (λ k. value_onto k rest) (omega arith)

value-digits_onto :
    (fuel n : ℕ) (rest : List ℕ) → n ≤ fuel → value (digits_onto fuel n rest) ≡ value_onto n rest
unfolding digits_onto
value-digits_onto zero n rest h = last_digit n rest (omega (arith, h))
value-digits_onto (suc fuel) n rest h = elim (Bool-cases (ltb n 10)) [
  | inl last ↦ rw last (last_digit n rest (ground arith))
  | inr more ↦
      let ge : 10 ≤ n = ground arith in
      rw more (
        value-digits_onto fuel (n / 10) (digit n ∷ rest) (omega (arith, h, ge)) ∙ next_digit n rest)
]

pub value-decimal : (n : ℕ) → value (decimal n) ≡ n
value-decimal n = value-digits_onto n n [] (omega arith)

pub decimal-injective : (i j : ℕ) → decimal i ≡ decimal j → i ≡ j
decimal-injective i j e = sym (value-decimal i) ∙ ap value e ∙ value-decimal j

digit_lem : (n : ℕ) → (48 ≤ digit n) × (digit n < 58)
digit_lem n = (omega arith, omega arith)

digits_onto-AreDigits :
    (fuel n : ℕ) (rest : List ℕ) → AreDigits rest → AreDigits (digits_onto fuel n rest)
unfolding digits_onto
digits_onto-AreDigits zero n rest h = (digit_lem n, h)
digits_onto-AreDigits (suc fuel) n rest h = elim (Bool-cases (ltb n 10)) [
  | inl last ↦ rw last (digit_lem n, h)
  | inr more ↦ rw more (digits_onto-AreDigits fuel (n / 10) (digit n ∷ rest) (digit_lem n, h))
]

pub decimal-AreDigits : (n : ℕ) → AreDigits (decimal n)
decimal-AreDigits n = digits_onto-AreDigits n n [] tt

pub digits-HasNoNul : (ds : List ℕ) → AreDigits ds → HasNoNul ds
digits-HasNoNul [] h = tt
digits-HasNoNul (d ∷ ds) h = (omega (arith, h.0.0), digits-HasNoNul ds h.1)

pub append-AreDigits : (xs ys : List ℕ) → AreDigits xs → AreDigits ys → AreDigits (xs ++ ys)
append-AreDigits [] ys h k = k
append-AreDigits (x ∷ xs) ys h k = (h.0, append-AreDigits xs ys h.1 k)

pow_pos : (k : ℕ) → 0 < 10 ^ k
pow_pos zero = omega arith
pow_pos (suc k) = omega (arith, pow_pos k)

tenth_lt : (k n : ℕ) → n < 10 ^ suc k → n / 10 < 10 ^ k
tenth_lt k n h = omega (arith, h)

tenth_ge : (k n : ℕ) → 10 ^ suc k ≤ n → 10 ^ k ≤ n / 10
tenth_ge k n h = omega (arith, h)

length-digits_onto :
    (fuel k n : ℕ) (rest : List ℕ)
    → n < 10 ^ suc k
    → length (digits_onto fuel n rest) ≤ suc k + length rest
unfolding digits_onto
length-digits_onto zero k n rest h = omega arith
length-digits_onto (suc fuel) zero n rest h =
    let last : ltb n 10 ≡ true = ground (arith, h) in rw last (omega arith)
length-digits_onto (suc fuel) (suc k) n rest h = elim (Bool-cases (ltb n 10)) [
  | inl last ↦ rw last (omega arith)
  | inr more ↦
      let ih = length-digits_onto fuel k (n / 10) (digit n ∷ rest) (tenth_lt (suc k) n h) in
      rw more (omega (arith, ih))
]

-- A number below a power of ten has no more digits than its exponent, where that is not 0.
pub length-decimal : (k n : ℕ) → n < 10 ^ suc k → length (decimal n) ≤ suc k
length-decimal k n h = omega (arith, length-digits_onto n k n [] h)

digits_onto-length :
    (fuel k n : ℕ) (rest : List ℕ)
    → n ≤ fuel
    → 10 ^ k ≤ n
    → suc k + length rest ≤ length (digits_onto fuel n rest)
unfolding digits_onto
digits_onto-length zero zero n rest h ge = omega arith
digits_onto-length zero (suc k) n rest h ge = absurd (omega (arith, h, tenth_ge k n ge, pow_pos k))
digits_onto-length (suc fuel) zero n rest h ge = elim (Bool-cases (ltb n 10)) [
  | inl last ↦ rw last (omega arith)
  | inr more ↦
      let lt : 10 ≤ n = ground arith in
      let ih =
        digits_onto-length fuel zero (n / 10) (digit n ∷ rest) (omega (arith, h, lt))
          (omega (arith, lt)) in
      rw more (omega (arith, ih))
]
digits_onto-length (suc fuel) (suc k) n rest h ge =
    let down = tenth_ge k n ge in
    let more : ltb n 10 ≡ false = ground (arith, down, pow_pos k) in
    let lt : 10 ≤ n = ground arith in
    let ih = digits_onto-length fuel k (n / 10) (digit n ∷ rest) (omega (arith, h, lt)) down in
    rw more (omega (arith, ih))

-- And no fewer than that where the number is not below the power before it.
pub decimal-length : (k n : ℕ) → 10 ^ k ≤ n → suc k ≤ length (decimal n)
decimal-length k n ge = omega (arith, digits_onto-length n k n [] (omega arith) ge)

value_onto-zeros : (k : ℕ) (ds : List ℕ) → value (replicate k 48 ++ ds) ≡ value ds
value_onto-zeros zero ds = refl
value_onto-zeros (suc k) ds = value_onto-zeros k ds

pub value-padded : (w n : ℕ) → value (padded w n) ≡ n
value-padded w n = value_onto-zeros (w - length (decimal n)) (decimal n) ∙ value-decimal n

pub length-padded : (k n : ℕ) → n < 10 ^ suc k → length (padded (suc k) n) ≡ suc k
length-padded k n h = omega (
  arith,
  length-decimal k n h,
  length-append (replicate (suc k - length (decimal n)) 48) (decimal n),
  length-replicate {A = ℕ} (suc k - length (decimal n)) 48,
)

zeros-AreDigits : (k : ℕ) → AreDigits (replicate k 48)
zeros-AreDigits zero = tt
zeros-AreDigits (suc k) = ((omega arith, omega arith), zeros-AreDigits k)

pub padded-AreDigits : (w n : ℕ) → AreDigits (padded w n)
padded-AreDigits w n =
    append-AreDigits (replicate (w - length (decimal n)) 48) (decimal n)
      (zeros-AreDigits (w - length (decimal n))) (decimal-AreDigits n)
