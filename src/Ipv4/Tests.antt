-- ===== src/Ipv4/Tests.antt =====
-- Runs of the address arithmetic, and the theorems at concrete inputs.
use foxhole.Prelude.{◌≡◌, refl, [], ◌∷◌, not, within, arith}
use foxhole.Ipv4.{ipv4, network_address, broadcast_address}
use foxhole.Ipv4.Ranges.{range_to_cidrs, public_ipv4_cidrs, forbidden_ipv4_cidrs, is_public_ipv4}
use foxhole.Ipv4.Ranges.Partition.{
  covers, range_to_cidrs-covers, public_ipv4_cidrs-covers, forbidden_ipv4_cidrs-covers,
}

one_block :
    range_to_cidrs (ipv4 10 0 0 0) (ipv4 10 255 255 255)
    ≡ record { address = ipv4 10 0 0 0; prefix = 8 } ∷ []
unfolding range_to_cidrs
one_block = refl

three_blocks :
    range_to_cidrs 1 4
    ≡ record { address = 1; prefix = 32 }
      ∷ record { address = 2; prefix = 31 }
      ∷ record { address = 4; prefix = 32 }
      ∷ []
unfolding range_to_cidrs
three_blocks = refl

network_of_host : network_address (ipv4 192 168 250 77) 24 ≡ ipv4 192 168 250 0
unfolding network_address
network_of_host = refl

broadcast_of_host : broadcast_address (ipv4 192 168 250 77) 24 ≡ ipv4 192 168 250 255
unfolding broadcast_address
broadcast_of_host = refl

range_to_cidrs-covers_example : covers (range_to_cidrs 1 4) 3 ≡ within 1 4 3
range_to_cidrs-covers_example =
    range_to_cidrs-covers 1 4 3 (omega arith) (omega arith) (omega arith)

public_ipv4_cidrs-covers_example :
    covers public_ipv4_cidrs (ipv4 8 8 8 8) ≡ is_public_ipv4 (ipv4 8 8 8 8)
public_ipv4_cidrs-covers_example = public_ipv4_cidrs-covers (ipv4 8 8 8 8) (omega arith)

forbidden_ipv4_cidrs-covers_example :
    covers forbidden_ipv4_cidrs (ipv4 10 1 2 3) ≡ not (covers public_ipv4_cidrs (ipv4 10 1 2 3))
forbidden_ipv4_cidrs-covers_example = forbidden_ipv4_cidrs-covers (ipv4 10 1 2 3) (omega arith)
