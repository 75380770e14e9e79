-- ===== src/Ipv4/Masks.antt =====
-- What the network and broadcast masks of src/sandbox/hyperv/network.rs do to an address.
use foxhole.Prelude.{ℕ, zero, suc, ◌+◌, ◌-◌, ◌*◌, ◌^◌, ◌≤◌, ◌<◌, ◌≡◌, sym, ap, ◌∙◌, arith}
use foxhole.Prelude.Bits.{clear, bit_and-mask, bit_or-ones}
use foxhole.Prelude.Powers.{pow_pos, pow_add}
use foxhole.Ipv4.{u32_max, prefix_mask, network_address, broadcast_address}

pow_parts : (p : ℕ) → p ≤ 32 → 2 ^ p * 2 ^ (32 - p) ≡ 2 ^ 32
pow_parts p h = sym (pow_add p (32 - p)) ∙ ap (λ (t : ℕ). 2 ^ t) {y = 32} (omega arith)

pub one_less : (a b : ℕ) → 0 < a → (a - 1) * b + b ≡ a * b
one_less zero b h = absurd (omega arith)
one_less (suc a) b h = let e : suc a - 1 ≡ a = omega arith in rw e (omega arith)

mask_size : (p : ℕ) → p ≤ 32 → (2 ^ p - 1) * 2 ^ (32 - p) + 2 ^ (32 - p) ≡ 2 ^ 32
mask_size p h = one_less (2 ^ p) (2 ^ (32 - p)) (pow_pos p) ∙ pow_parts p h

prefix_mask_lem : (p : ℕ) → p ≤ 32 → prefix_mask p ≡ (2 ^ p - 1) * 2 ^ (32 - p)
prefix_mask_lem p h = omega (arith, mask_size p h, pow_pos (32 - p))

-- The mask of a prefix clears the host bits.
pub network_address-clear :
    (a p : ℕ) → p ≤ 32 → a ≤ u32_max → network_address a p ≡ clear (32 - p) a
unfolding network_address
network_address-clear a p h b =
    rw (prefix_mask_lem p h) (bit_and-mask p (32 - p) a (omega (arith, pow_parts p h)))

-- The complement of the mask fills them.
pub broadcast_address-fill :
    (a p : ℕ) → p ≤ 32 → broadcast_address a p ≡ clear (32 - p) a + (2 ^ (32 - p) - 1)
unfolding broadcast_address
broadcast_address-fill a p h =
    let e : u32_max - prefix_mask p ≡ 2 ^ (32 - p) - 1 =
      rw (prefix_mask_lem p h) (omega (arith, mask_size p h, pow_pos (32 - p))) in
    rw e (bit_or-ones (32 - p) a)
