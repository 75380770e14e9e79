-- ===== src/Prelude/Bits.antt =====
-- The native bit operations at variables: an equation for the lowest digit, and what a mask of
-- high or low bits does to a number.
use Prim.Native.Nat.{
  ℕ, zero, suc, ◌+◌, ◌-◌, ◌*◌, ◌/◌, ◌%◌, ◌^◌, ◌≤◌, ◌<◌, min, max, bit_and, bit_or, digits,
  bit_and-bitwise, bit_or-bitwise,
}
use mathlib.Core.Path.{◌≡◌, refl, sym, ◌∙◌, ap}
use native.Mathlib.Nat.{div-div-eq-div-mul}
use foxhole.Prelude.Powers.{pow_pos, pow_double}
use native.Mathlib.Omega.{arith}

module _ (rest : ℕ → ℕ) (digit : ℕ → ℕ → ℕ) where
  -- Fuel beyond the first number makes no difference.
  spare_fuel : (k l x y : ℕ) → x ≤ k → x ≤ l → digits rest digit k x y ≡ digits rest digit l x y
  spare_fuel k l zero y h h' = fewer k l
    where
      fewer : (k l : ℕ) → digits rest digit k zero y ≡ digits rest digit l zero y
      fewer zero zero = refl
      fewer zero (suc l) = refl
      fewer (suc k) zero = refl
      fewer (suc k) (suc l) = refl
  spare_fuel zero l (suc x) y h h' = absurd (omega arith)
  spare_fuel (suc k) zero (suc x) y h h' = absurd (omega arith)
  spare_fuel (suc k) (suc l) (suc x) y h h' =
      omega (arith, spare_fuel k l (suc x / 2) (y / 2) (omega arith) (omega arith))

  digits_step :
      (x y : ℕ)
      → 0 < x
      → digits rest digit x x y
        ≡ digits rest digit (x / 2) (x / 2) (y / 2) * 2 + digit (x % 2) (y % 2)
  digits_step zero y h = absurd (omega arith)
  digits_step (suc x) y h =
      omega (arith, spare_fuel x (suc x / 2) (suc x / 2) (y / 2) (omega arith) (omega arith))

zero-bit_and : (y : ℕ) → bit_and 0 y ≡ 0
zero-bit_and y = bit_and-bitwise 0 y

zero-bit_or : (y : ℕ) → bit_or 0 y ≡ y
zero-bit_or y = bit_or-bitwise 0 y

pub bit_and-digit : (x y : ℕ) → bit_and x y ≡ bit_and (x / 2) (y / 2) * 2 + min (x % 2) (y % 2)
bit_and-digit zero y = omega (arith, zero-bit_and y, zero-bit_and (y / 2))
bit_and-digit (suc x) y = omega (
  arith,
  bit_and-bitwise (suc x) y,
  bit_and-bitwise (suc x / 2) (y / 2),
  digits_step (λ b. zero) min (suc x) y (omega arith),
)

pub bit_or-digit : (x y : ℕ) → bit_or x y ≡ bit_or (x / 2) (y / 2) * 2 + max (x % 2) (y % 2)
bit_or-digit zero y = omega (arith, zero-bit_or y, zero-bit_or (y / 2))
bit_or-digit (suc x) y = omega (
  arith,
  bit_or-bitwise (suc x) y,
  bit_or-bitwise (suc x / 2) (y / 2),
  digits_step (λ b. b) max (suc x) y (omega arith),
)

half_ones : (n : ℕ) → (2 ^ suc n - 1) / 2 ≡ 2 ^ n - 1
half_ones n = omega (arith, pow_double n, pow_pos n)

-- A mask of `n` ones keeps a number below 2 ^ n.
pub bit_and-ones : (n x : ℕ) → x < 2 ^ n → bit_and x (2 ^ n - 1) ≡ x
bit_and-ones zero zero h = zero-bit_and 0
bit_and-ones zero (suc x) h = absurd (omega arith)
bit_and-ones (suc n) x h =
    bit_and-digit x (2 ^ suc n - 1)
    ∙ rw (half_ones n, bit_and-ones n (x / 2) (omega (arith, pow_double n)))
        (omega (arith, pow_double n, pow_pos n))

half_shifted : (m k : ℕ) → m * 2 ^ suc k / 2 ≡ m * 2 ^ k
half_shifted m k = omega (arith, ap (λ (t : ℕ). m * t) (pow_double k))

even_shifted : (m k : ℕ) → m * 2 ^ suc k % 2 ≡ 0
even_shifted m k = omega (arith, ap (λ (t : ℕ). m * t) (pow_double k))

-- The number with its last `k` bits cleared.
abbrev pub clear : ℕ → ℕ → ℕ
clear k x = x / 2 ^ k * 2 ^ k

div_halves : (k x : ℕ) → x / 2 / 2 ^ k ≡ x / 2 ^ suc k
div_halves k x = div-div-eq-div-mul x 2 (2 ^ k) ∙ ap (λ (t : ℕ). x / t) (sym (pow_double k))

clear-suc : (k x : ℕ) → clear (suc k) x ≡ clear k (x / 2) * 2
clear-suc k x = omega (
  arith,
  div_halves k x,
  ap (λ (t : ℕ). x / 2 / 2 ^ k * t) (pow_double k),
  ap (λ (t : ℕ). t * 2 ^ suc k) (div_halves k x),
)

-- A mask of `n` ones above `k` zeros clears the last `k` bits of a number of `n + k` bits.
pub bit_and-mask : (n k x : ℕ) → x < 2 ^ n * 2 ^ k → bit_and x ((2 ^ n - 1) * 2 ^ k) ≡ clear k x
bit_and-mask n zero x h =
    let plain : (2 ^ n - 1) * 2 ^ 0 ≡ 2 ^ n - 1 = omega arith in
    rw (plain, bit_and-ones n x (omega arith)) (omega arith)
bit_and-mask n (suc k) x h =
    bit_and-digit x ((2 ^ n - 1) * 2 ^ suc k)
    ∙ rw
        (
          half_shifted (2 ^ n - 1) k,
          even_shifted (2 ^ n - 1) k,
          bit_and-mask n k (x / 2) (omega (arith, ap (λ (t : ℕ). 2 ^ n * t) (pow_double k))),
          clear-suc k x,
        )
        (omega arith)

bit_or-zero_within : (n x : ℕ) → x ≤ n → bit_or x 0 ≡ x
bit_or-zero_within n zero h = zero-bit_or 0
bit_or-zero_within zero (suc x) h = absurd (omega arith)
bit_or-zero_within (suc n) (suc x) h =
    omega (arith, bit_or-digit (suc x) 0, bit_or-zero_within n (suc x / 2) (omega arith))

-- Ones below a power of two fill the last `k` bits.
pub bit_or-ones : (k x : ℕ) → bit_or x (2 ^ k - 1) ≡ clear k x + (2 ^ k - 1)
bit_or-ones zero x = omega (arith, bit_or-zero_within x x (omega arith))
bit_or-ones (suc k) x =
    bit_or-digit x (2 ^ suc k - 1)
    ∙ rw (half_ones k, bit_or-ones k (x / 2), clear-suc k x)
        (omega (arith, pow_double k, pow_pos k))
