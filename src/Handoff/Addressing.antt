-- ===== src/Handoff/Addressing.antt =====
-- The addresses that src/sandbox/hyperv/network.rs hands over are those that the request of
-- src/sandbox/hyperv/guest_protocol.rs accepts.
use Prim.Native.Nat.{bit_and, bit_or}
use foxhole.Prelude.{
  ℕ, zero, suc, ◌+◌, ◌≤◌, ◌≡◌, ◌≢◌, refl, sym, ap, ◌∙◌, Bool, true, false, not, List, [], ◌∷◌, any,
  arith, ◌==◌, inl, inr, within, Bool-cases, ==_iff, ◌-◌, ◌^◌,
}
use foxhole.Ipv4.{u32_max, ipv4, network_address, broadcast_address, prefix_mask}
use foxhole.Prelude.Bits.{clear}
use foxhole.Ipv4.Masks.{network_address-clear, broadcast_address-fill}
use foxhole.Ipv4.Ranges.{Range, in_ranges, forbidden_ranges, is_public_ipv4}
use foxhole.Protocol.Request.{valid_guest_unicast, bad_resolver}
use foxhole.Network.Gateway.{ControlledGatewayConfig}
use foxhole.Network.Gateway.Pool.{IsUsable}

-- Where no range holds a public address.
pub record IsPlain (a : ℕ) : Type 0 where
  pub this_network : within (ipv4 0 0 0 0) (ipv4 0 255 255 255) a ≡ false
  pub loopback : within (ipv4 127 0 0 0) (ipv4 127 255 255 255) a ≡ false
  pub link_local : within (ipv4 169 254 0 0) (ipv4 169 254 255 255) a ≡ false
  pub high : within (ipv4 224 0 0 0) (ipv4 255 255 255 255) a ≡ false
  pub private_10 : within (ipv4 10 0 0 0) (ipv4 10 255 255 255) a ≡ false
  pub private_172 : within (ipv4 172 16 0 0) (ipv4 172 31 255 255) a ≡ false
  pub private_192 : within (ipv4 192 168 0 0) (ipv4 192 168 255 255) a ≡ false
  pub documentation_1 : within (ipv4 192 0 2 0) (ipv4 192 0 2 255) a ≡ false
  pub documentation_2 : within (ipv4 198 51 100 0) (ipv4 198 51 100 255) a ≡ false
  pub documentation_3 : within (ipv4 203 0 113 0) (ipv4 203 0 113 255) a ≡ false

range_at : ℕ → List Range → Range
range_at n [] = record { start = 1; end = 0 }
range_at zero (r ∷ rs) = r
range_at (suc n) (r ∷ rs) = range_at n rs

range_at-outside :
    (n : ℕ) (rs : List Range) (a : ℕ)
    → in_ranges rs a ≡ false
    → within (range_at n rs).start (range_at n rs).end a ≡ false
unfolding range_at
range_at-outside n [] a h = ground arith
range_at-outside zero (r ∷ rs) a h = ground arith
range_at-outside (suc n) (r ∷ rs) a h = range_at-outside n rs a (ground arith)

IsPlain-of : (a : ℕ) → in_ranges forbidden_ranges a ≡ false → IsPlain a
unfolding range_at
IsPlain-of a h = record {
  this_network = range_at-outside 0 forbidden_ranges a h;
  loopback = range_at-outside 3 forbidden_ranges a h;
  link_local = range_at-outside 5 forbidden_ranges a h;
  high = range_at-outside 14 forbidden_ranges a h;
  private_10 = range_at-outside 1 forbidden_ranges a h;
  private_172 = range_at-outside 6 forbidden_ranges a h;
  private_192 = range_at-outside 10 forbidden_ranges a h;
  documentation_1 = range_at-outside 8 forbidden_ranges a h;
  documentation_2 = range_at-outside 12 forbidden_ranges a h;
  documentation_3 = range_at-outside 13 forbidden_ranges a h;
}

not_forbidden : (a : ℕ) → is_public_ipv4 a ≡ true → in_ranges forbidden_ranges a ≡ false
unfolding is_public_ipv4
not_forbidden a h = negated (in_ranges forbidden_ranges a) h
  where
    negated : (b : Bool) → not b ≡ true → b ≡ false
    negated b h = ground arith

pub bad_resolver-IsPlain : (a : ℕ) → IsPlain a → bad_resolver a ≡ false
unfolding valid_guest_unicast
bad_resolver-IsPlain a p = ground arith

pub no_bad_resolver :
    (ds : List ℕ) → any (λ a. not (is_public_ipv4 a)) ds ≡ false → any bad_resolver ds ≡ false
no_bad_resolver [] h = refl
no_bad_resolver (d ∷ ds) h =
    let rest = no_bad_resolver ds (ground arith) in
    let first = bad_resolver-IsPlain d (IsPlain-of d (not_forbidden d (ground arith))) in
    ground arith

not_equal : (x y : ℕ) → x ≢ y → (x == y) ≡ false
not_equal x y h = elim (Bool-cases (x == y)) [ inl e ↦ absurd (h ((==_iff x y).0 e)) | inr e ↦ e ]

-- The guest's tests of an address that is usable beside the host's.
module _ (g : ControlledGatewayConfig) (a : ℕ) (u : IsUsable g a) (low : g.prefix_length ≤ 30)
    (wide : a ≤ u32_max) (host_wide : g.host_ipv4 ≤ u32_max) where
  same_broadcast :
      broadcast_address a g.prefix_length ≡ broadcast_address g.host_ipv4 g.prefix_length
  same_broadcast =
      let same : clear (32 - g.prefix_length) a ≡ clear (32 - g.prefix_length) g.host_ipv4 =
        sym (network_address-clear a g.prefix_length (omega arith) wide)
        ∙ u.in_subnet
        ∙ network_address-clear g.host_ipv4 g.prefix_length (omega arith) host_wide in
      broadcast_address-fill a g.prefix_length (omega arith)
      ∙ ap (λ n. n + (2 ^ (32 - g.prefix_length) - 1)) same
      ∙ sym (broadcast_address-fill g.host_ipv4 g.prefix_length (omega arith))

  pub not_network : (a == bit_and a (prefix_mask g.prefix_length)) ≡ false
  unfolding network_address
  not_network =
      not_equal a (network_address a g.prefix_length) (λ e. u.not_network (e ∙ u.in_subnet))

  pub not_broadcast : (a == bit_or a (u32_max - prefix_mask g.prefix_length)) ≡ false
  unfolding broadcast_address
  not_broadcast =
      not_equal a (broadcast_address a g.prefix_length) (λ e. u.not_broadcast (e ∙ same_broadcast))

  pub same_network :
      (bit_and g.host_ipv4 (prefix_mask g.prefix_length) == bit_and a (prefix_mask g.prefix_length))
      ≡ true
  unfolding network_address
  same_network =
      (==_iff (network_address g.host_ipv4 g.prefix_length) (network_address a g.prefix_length)).1
        (sym u.in_subnet)

  pub not_host : (g.host_ipv4 == a) ≡ false
  not_host = not_equal g.host_ipv4 a (λ e. u.not_host (sym e))
