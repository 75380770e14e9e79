-- ===== src/Prelude/Powers.antt =====
-- Powers of two.
use native.Mathlib.Nat.{pow-suc, one-le-pow, pow-le-pow_right}
use Prim.Native.Nat.{ℕ, zero, suc, ◌+◌, ◌*◌, ◌^◌, ◌≤◌, ◌<◌}
use mathlib.Core.Path.{◌≡◌, ap}
use native.Mathlib.Omega.{arith}

pub pow_pos : (k : ℕ) → 0 < 2 ^ k
pow_pos k = one-le-pow k 2 (omega arith)

pub pow_double : (k : ℕ) → 2 ^ suc k ≡ 2 * 2 ^ k
pow_double k = omega (arith, pow-suc 2 k)

pub pow_add : (i j : ℕ) → 2 ^ (i + j) ≡ 2 ^ i * 2 ^ j
pow_add zero j = let e : 0 + j ≡ j = omega arith in rw e (omega arith)
pow_add (suc i) j =
    let e : suc i + j ≡ suc (i + j) = omega arith in
    rw e (
      omega (
        arith,
        pow_double (i + j),
        pow_double i,
        pow_add i j,
        ap (λ (t : ℕ). t * 2 ^ j) (pow_double i),
      ))

pub pow_le : (i j : ℕ) → i ≤ j → 2 ^ i ≤ 2 ^ j
pow_le i j h = pow-le-pow_right (omega arith) h
