-- ===== src/Ipv4/Ranges/Partition.antt =====
-- The CIDR lists of src/sandbox/hyperv/network.rs match exactly the addresses that they stand for.
use mathlib.Core.Bool.{not-not}
use native.Mathlib.Decide.{dec_lt}
use foxhole.Prelude.{
  ℕ, zero, suc, ◌+◌, ◌-◌, ◌%◌, ◌^◌, ◌≤◌, ◌<◌, ◌≡◌, refl, sym, ap, ◌∙◌, Bool, false, not, ◌&&◌, ◌||◌,
  List, [], ◌∷◌, arith, ltb, leb, within, any, length, any-append, Bool-cases, ltb→lt, leb→le,
  not_ltb→le, not_leb→lt, inl, inr,
}
use foxhole.Prelude.Powers.{pow_pos}
use foxhole.Ipv4.{u32_max}
use foxhole.Ipv4.Ranges.{
  Range, Cidr, host_bits, cidr_loop, range_to_cidrs, forbidden_ranges, in_ranges, is_public_ipv4,
  forbidden_cidrs_of, forbidden_ipv4_cidrs, saturating_add_u64, public_cidrs_from,
  public_ipv4_cidrs,
}
use foxhole.Ipv4.Ranges.Blocks.{
  matches, matches-within, host_bits-fits, host_bits-aligned, host_bits-le,
}

-- Some CIDR of the list matches.
abbrev pub covers : List Cidr → ℕ → Bool
covers cs x = any (λ c. matches c x) cs

-- A block and the rest of its range.
glue : (s m e x : ℕ) → s < m → m ≤ e → (within s (m - 1) x || within m e x) ≡ within s e x
glue s m e x h k = ground arith

glue_last : (s m e x : ℕ) → m ≡ e + 1 → (within s (m - 1) x || false) ≡ within s e x
glue_last s m e x h = ground arith

cidr_loop-covers :
    (fuel s e x : ℕ)
    → s ≤ e
    → e ≤ u32_max
    → x ≤ u32_max
    → e < s + fuel
    → covers (cidr_loop fuel s e) x ≡ within s e x
unfolding cidr_loop
cidr_loop-covers zero s e x h b xb enough = absurd (omega arith)
cidr_loop-covers (suc fuel) s e x h b xb enough =
    let k : ℕ = host_bits s e in
    let next : ℕ = s + 2 ^ host_bits s e in
    let fits : s + 2 ^ host_bits s e ≤ e + 1 = host_bits-fits s e h in
    let pos : 0 < 2 ^ host_bits s e = pow_pos (host_bits s e) in
    let block =
      matches-within (host_bits s e) s x (host_bits-le s e h) (omega arith) xb
        (host_bits-aligned s e h) in
    elim (Bool-cases (ltb e next)) [
      | inl last ↦ rw (last, block) (glue_last s next e x (omega (arith, ltb→lt e next last)))
      | inr more ↦
          let wrap : next % 2 ^ 32 ≡ next = omega (arith, not_ltb→le e next more) in
          rw
            (
              more,
              block,
              wrap,
              cidr_loop-covers fuel next e x (not_ltb→le e next more) b xb (omega arith),
            )
            (glue s next e x (omega arith) (not_ltb→le e next more))
    ]

-- For a range of 32-bit addresses that starts no later than it ends, the CIDRs match a 32-bit
-- address exactly when it is in the range.
pub range_to_cidrs-covers :
    (start end x : ℕ)
    → start ≤ end
    → end ≤ u32_max
    → x ≤ u32_max
    → covers (range_to_cidrs start end) x ≡ within start end x
unfolding range_to_cidrs
range_to_cidrs-covers start end x h b xb =
    cidr_loop-covers (end + 1 - start) start end x h b xb (omega arith)

-- Ranges in order, apart from one another, from `cursor` on.
abbrev pub IsSortedFrom : ℕ → List Range → Type 0
IsSortedFrom cursor [] = Unit
IsSortedFrom cursor (r ∷ rs) =
    (cursor ≤ r.start) × (r.start ≤ r.end) × (r.end ≤ u32_max) × IsSortedFrom (r.end + 1) rs

forbidden_cidrs_of-covers :
    (cursor : ℕ) (rs : List Range) (x : ℕ)
    → IsSortedFrom cursor rs
    → x ≤ u32_max
    → covers (forbidden_cidrs_of rs) x ≡ in_ranges rs x
unfolding forbidden_cidrs_of
forbidden_cidrs_of-covers cursor [] x h xb = refl
forbidden_cidrs_of-covers cursor (r ∷ rs) x h xb =
    any-append (λ c. matches c x) (range_to_cidrs r.start r.end) (forbidden_cidrs_of rs)
    ∙ rw (
      range_to_cidrs-covers r.start r.end x h.1 h.2 xb,
      forbidden_cidrs_of-covers (r.end + 1) rs x h.3 xb,
    )

in_ranges_below :
    (cursor : ℕ) (rs : List Range) (x : ℕ)
    → IsSortedFrom cursor rs
    → x < cursor
    → in_ranges rs x ≡ false
in_ranges_below cursor [] x h below = refl
in_ranges_below cursor (r ∷ rs) x h below = ground (arith, in_ranges_below (r.end + 1) rs x h.3)

-- Before a forbidden range, in it, and behind it.
beside :
    (c s e x : ℕ) (later : Bool)
    → c < s
    → s ≤ e
    → (x < e + 1 → later ≡ false)
    → (within c (s - 1) x || (leb (e + 1) x && not later))
      ≡ (leb c x && not (within s e x || later))
beside c s e x later h k f = elim (dec_lt x (e + 1)) [
  | yes low ↦ rw (f low) (ground arith)
  | no high ↦ ground arith
]

behind :
    (c s e x : ℕ) (later : Bool)
    → c ≡ s
    → s ≤ e
    → (x < e + 1 → later ≡ false)
    → (leb (e + 1) x && not later) ≡ (leb c x && not (within s e x || later))
behind c s e x later h k f = elim (dec_lt x (e + 1)) [
  | yes low ↦ rw (f low) (ground arith)
  | no high ↦ ground arith
]

up_to : (c x : ℕ) → x ≤ u32_max → within c u32_max x ≡ (leb c x && not false)
up_to c x h = ground arith

past : (c x : ℕ) → x ≤ u32_max → u32_max < c → false ≡ (leb c x && not false)
past c x h k = ground arith

public_cidrs_from-covers :
    (cursor : ℕ) (rs : List Range) (x : ℕ)
    → IsSortedFrom cursor rs
    → x ≤ u32_max
    → covers (public_cidrs_from cursor rs) x ≡ (leb cursor x && not (in_ranges rs x))
unfolding public_cidrs_from
public_cidrs_from-covers cursor [] x h xb = elim (Bool-cases (leb cursor u32_max)) [
  | inl more ↦
      let fits : cursor ≤ u32_max = leb→le cursor u32_max more in
      let wrap : cursor % 2 ^ 32 ≡ cursor = omega arith in
      rw (more, wrap, range_to_cidrs-covers cursor u32_max x fits (omega arith) xb)
        (up_to cursor x xb)
  | inr done ↦ rw done (past cursor x xb (not_leb→lt cursor u32_max done))
]
public_cidrs_from-covers cursor (r ∷ rs) x h xb =
    let saturated : saturating_add_u64 r.end 1 ≡ r.end + 1 = omega arith in
    let rest = public_cidrs_from-covers (r.end + 1) rs x h.3 xb in
    elim (Bool-cases (ltb cursor r.start)) [
      | inl gap ↦
          let low : cursor < r.start = ltb→lt cursor r.start gap in
          let wrap : cursor % 2 ^ 32 ≡ cursor = omega arith in
          let wrap_end : (r.start - 1) % 2 ^ 32 ≡ r.start - 1 = omega arith in
          rw (gap, saturated, wrap, wrap_end)
            (any-append (λ c. matches c x) (range_to_cidrs cursor (r.start - 1))
                (public_cidrs_from (r.end + 1) rs)
              ∙ rw
                  (
                    range_to_cidrs-covers cursor (r.start - 1) x (omega arith) (omega arith) xb,
                    rest,
                  )
                  (beside cursor r.start r.end x (in_ranges rs x) low h.1
                    (in_ranges_below (r.end + 1) rs x h.3)))
      | inr flush ↦
          rw (flush, saturated, rest)
            (behind cursor r.start r.end x (in_ranges rs x)
              (omega (arith, not_ltb→le cursor r.start flush)) h.1
              (in_ranges_below (r.end + 1) rs x h.3))
    ]

from_zero : (x : ℕ) (b : Bool) → (leb 0 x && b) ≡ b
from_zero x b = ground arith

-- The public list matches a 32-bit address exactly when the source calls the address public.
pub public_ipv4_cidrs-covers : (x : ℕ) → x ≤ u32_max → covers public_ipv4_cidrs x ≡ is_public_ipv4 x
unfolding public_ipv4_cidrs is_public_ipv4
public_ipv4_cidrs-covers x xb =
    public_cidrs_from-covers 0 forbidden_ranges x (omega arith) xb ∙ from_zero x (is_public_ipv4 x)

-- The forbidden list matches a 32-bit address exactly when the public list does not.
pub forbidden_ipv4_cidrs-covers :
    (x : ℕ) → x ≤ u32_max → covers forbidden_ipv4_cidrs x ≡ not (covers public_ipv4_cidrs x)
unfolding forbidden_ipv4_cidrs is_public_ipv4
forbidden_ipv4_cidrs-covers x xb =
    forbidden_cidrs_of-covers 0 forbidden_ranges x (omega arith) xb
    ∙ sym (ap not (public_ipv4_cidrs-covers x xb) ∙ not-not (in_ranges forbidden_ranges x))

pub forbidden_ipv4_cidrs-few : length forbidden_ipv4_cidrs < 40
unfolding forbidden_ipv4_cidrs range_to_cidrs
forbidden_ipv4_cidrs-few = omega arith

pub public_ipv4_cidrs-few : length public_ipv4_cidrs < 200
unfolding public_ipv4_cidrs range_to_cidrs
public_ipv4_cidrs-few = omega arith
