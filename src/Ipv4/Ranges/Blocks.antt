-- ===== src/Ipv4/Ranges/Blocks.antt =====
-- One round of `range_to_cidrs` of src/sandbox/hyperv/network.rs: the block that it takes is
-- aligned, fits into the range, and is what its CIDR matches.
use Prim.Native.Nat.{◌∣◌}
use native.Mathlib.Nat.{
  pow-suc, mul-dvd-mul, mod-eq-zero_of_dvd, dvd_trans, dvd_refl, dvd-mul_right, div-eq_of_lt-le,
  one-dvd, div-add-mod', mod-lt,
}
use native.Mathlib.Decide.{dec_lt}
use mathlib.Core.Path.{subst, subst₂}
use foxhole.Prelude.{
  ℕ, zero, suc, ◌+◌, ◌-◌, ◌*◌, ◌/◌, ◌%◌, ◌^◌, ◌≤◌, ◌<◌, min, ◌≡◌, ◌↔◌, refl, sym, ap, ◌∙◌, Bool,
  inl, inr, arith, ◌==◌, ==_iff, within, Bool-cases, eq_of_iff,
}
use foxhole.Prelude.Bits.{clear}
use foxhole.Prelude.Powers.{pow_pos, pow_double, pow_add, pow_le}
use foxhole.Ipv4.{u32_max, same_subnet}
use foxhole.Ipv4.Masks.{network_address-clear}
use foxhole.Ipv4.Ranges.{Cidr, trailing_zeros_within, bit_length_within, host_bits}

-- A number whose last `k` bits are zero begins the block of 2 ^ k numbers that share its others.
pub clear_iff : (k s x : ℕ) → s % 2 ^ k ≡ 0 → (clear k x ≡ s) ↔ ((s ≤ x) × (x < s + 2 ^ k))
clear_iff k s x aligned = (to, from)
  where
    to : clear k x ≡ s → (s ≤ x) × (x < s + 2 ^ k)
    to e = omega (arith, div-add-mod' x (2 ^ k), mod-lt x (pow_pos k))

    from : (s ≤ x) × (x < s + 2 ^ k) → clear k x ≡ s
    from h =
        let whole : s / 2 ^ k * 2 ^ k ≡ s = omega (arith, div-add-mod' s (2 ^ k)) in
        let q : x / 2 ^ k ≡ s / 2 ^ k =
          div-eq_of_lt-le (2 ^ k) (omega (arith, h)) (omega (arith, h)) in
        ap (λ (t : ℕ). t * 2 ^ k) q ∙ whole

pow-dvd : (i j : ℕ) → i ≤ j → 2 ^ i ∣ 2 ^ j
pow-dvd i j h =
    let e : i + (j - i) ≡ j = omega arith in
    subst (λ (t : ℕ). 2 ^ i ∣ 2 ^ t) e
      (subst (λ (t : ℕ). 2 ^ i ∣ t) (sym (pow_add i (j - i))) (dvd-mul_right (2 ^ i) (2 ^ (j - i))))

-- The trailing zeros of a number are zeros.
trailing_zeros-dvd : (k n : ℕ) → 2 ^ trailing_zeros_within k n ∣ n
unfolding trailing_zeros_within
trailing_zeros-dvd zero n = one-dvd n
trailing_zeros-dvd (suc k) n = elim (Bool-cases (n % 2 == 0)) [
  | inl even ↦ rw even (
      let halves : n / 2 * 2 ≡ n = ground arith in
      let twice : 2 ^ trailing_zeros_within k (n / 2) * 2
          ≡ 2 ^ suc (trailing_zeros_within k (n / 2)) =
        sym (pow-suc 2 (trailing_zeros_within k (n / 2))) in
      subst₂ ◌∣◌ twice halves (mul-dvd-mul _ 2 (trailing_zeros-dvd k (n / 2)) (dvd_refl 2)))
  | inr odd ↦ rw odd (one-dvd n)
]

trailing_zeros-le : (k n : ℕ) → trailing_zeros_within k n ≤ k
unfolding trailing_zeros_within
trailing_zeros-le zero n = omega arith
trailing_zeros-le (suc k) n = ground (arith, trailing_zeros-le k (n / 2))

bit_length-zero : (k : ℕ) → bit_length_within k 0 ≡ 0
unfolding bit_length_within
bit_length-zero zero = refl
bit_length-zero (suc k) = refl

bit_length-suc :
    (k n : ℕ) → bit_length_within (suc k) (suc n) ≡ suc (bit_length_within k (suc n / 2))
unfolding bit_length_within
bit_length-suc k n = ground arith

-- The highest 1 of a number is worth no more than the number.
bit_length-le : (k n : ℕ) → 0 < n → 2 ^ bit_length_within k n ≤ 2 * n
bit_length-le zero n h = unfold bit_length_within in omega arith
bit_length-le (suc k) zero h = absurd (omega arith)
bit_length-le (suc k) (suc n) h = rw (bit_length-suc k n) (elim (dec_lt 0 (suc n / 2)) [
  | yes more ↦
      omega (arith, pow_double (bit_length_within k (suc n / 2)), bit_length-le k (suc n / 2) more)
  | no last ↦ let e : suc n / 2 ≡ 0 = omega arith in rw (e, bit_length-zero k) (omega arith)
])

bit_length-pos : (k n : ℕ) → 0 < n → 0 < bit_length_within (suc k) n
unfolding bit_length_within
bit_length-pos k n h = ground arith

bit_length-le_fuel : (k n : ℕ) → bit_length_within k n ≤ k
unfolding bit_length_within
bit_length-le_fuel zero n = omega arith
bit_length-le_fuel (suc k) n = ground (arith, bit_length-le_fuel k (n / 2))

-- The largest power of two within a number, as `63 - n.leading_zeros()` finds it.
size_bits-le : (n : ℕ) → 0 < n → 2 ^ (63 - (64 - bit_length_within 64 n)) ≤ n
size_bits-le n h =
    let pos = bit_length-pos 63 n h in
    let top = bit_length-le_fuel 64 n in
    let b : ℕ = bit_length_within 64 n in
    let e : 63 - (64 - bit_length_within 64 n) ≡ b - 1 = omega arith in
    let up : suc (b - 1) ≡ b = omega arith in
    rw e (omega (arith, pow_double (b - 1), bit_length-le 64 n h, ap (λ (t : ℕ). 2 ^ t) up))

min-cases : (a b : ℕ) → (min a b ≤ a) × (min a b ≤ b)
min-cases a b = (omega arith, omega arith)

-- A block ends within the range and begins at a multiple of its size.
module _ (start end : ℕ) (h : start ≤ end) where
  pub host_bits-fits : start + 2 ^ host_bits start end ≤ end + 1
  unfolding host_bits
  host_bits-fits =
      let n : ℕ = end - start + 1 in
      omega (
        arith,
        size_bits-le n (omega arith),
        pow_le _ _
            (min-cases (trailing_zeros_within 32 start) (63 - (64 - bit_length_within 64 n))).1,
      )

  pub host_bits-aligned : start % 2 ^ host_bits start end ≡ 0
  unfolding host_bits
  host_bits-aligned =
      let n : ℕ = end - start + 1 in
      mod-eq-zero_of_dvd _ (
        dvd_trans _
          (pow-dvd _ _
            (min-cases (trailing_zeros_within 32 start) (63 - (64 - bit_length_within 64 n))).0)
          (trailing_zeros-dvd 32 start))

  pub host_bits-le : host_bits start end ≤ 32
  unfolding host_bits
  host_bits-le = omega (arith, trailing_zeros-le 32 start)

-- A CIDR matches the addresses that share its network.
abbrev pub matches : Cidr → ℕ → Bool
matches c x = same_subnet c.address x c.prefix

-- The CIDR of an aligned block matches the block.
pub matches-within :
    (k s x : ℕ)
    → k ≤ 32
    → s ≤ u32_max
    → x ≤ u32_max
    → s % 2 ^ k ≡ 0
    → matches (record { address = s; prefix = 32 - k }) x ≡ within s (s + 2 ^ k - 1) x
unfolding same_subnet
matches-within k s x small sb xb aligned =
    let back : 32 - (32 - k) ≡ k = omega arith in
    let own : clear k s ≡ s = (clear_iff k s s aligned).1 (omega arith, omega (arith, pow_pos k)) in
    rw
      (
        network_address-clear s (32 - k) (omega arith) sb,
        network_address-clear x (32 - k) (omega arith) xb,
        back,
        own,
      )
      (eq_of_iff _ _
        (λ e.
          ground (arith, pow_pos k, (clear_iff k s x aligned).0 (sym ((==_iff s (clear k x)).0 e))))
        (λ e. (==_iff s (clear k x)).1 (
          sym
            ((clear_iff k s x aligned).1 (ground (arith, pow_pos k), ground (arith, pow_pos k))))))
