-- ===== src/Protocol/Request/Addressing.antt =====
-- The addressing of a request that passes `validate_network_configuration` of
-- src/sandbox/hyperv/guest_protocol.rs.
use foxhole.Prelude.{
  ℕ, ◌-◌, ◌≤◌, ◌≡◌, refl, sym, ◌∙◌, ◌>>=◌, ◌||◌, ◌==◌, within, any, Bool, true, false, not, List,
  [], ◌∷◌, Option, none, some, arith, ok, refuse_if, ok_or, refuse_if_ok, >>-eq-ok, >>=-eq-ok, All,
  length, is_empty,
}
use Prim.Native.Nat.{bit_and, bit_or}
use foxhole.Ipv4.{u32_max, prefix_mask}
use foxhole.Protocol.Errors.{invalid_network_configuration}
use foxhole.Protocol.Request.{
  GuestRunRequest, GuestNetworkPolicy, validate_network_configuration, valid_guest_unicast, is_set,
  is_configured, lacks_port, bad_host_service, bad_resolver, bad_internet, validate_endpoint,
  validate_addressing,
}
use foxhole.Protocol.Request.Addresses.{
  valid_guest_unicast-IsUnicast, IsUnaddressed, IsOwn, IsServed, IsResolver, IsRouted, IsAddressed,
}

unset {ℓ} : {A : Type ℓ} (o : Option A) → is_set o ≡ false → o ≡ none
unset none h = refl
unset (some a) h = absurd (ground arith)

without {ℓ} : {A : Type ℓ} (xs : List A) → is_empty xs ≡ true → xs ≡ []
without [] h = refl
without (x ∷ xs) h = absurd (ground arith)

not_configured : (r : GuestRunRequest) → is_configured r ≡ false → IsUnaddressed r
unfolding is_configured
not_configured r h = record {
  guest = unset r.guest_ipv4 (ground arith);
  prefix = unset r.prefix_length (ground arith);
  gateway = unset r.gateway_ipv4 (ground arith);
  resolvers = without r.dns_servers (ground arith);
  host = unset r.host_service_ipv4 (ground arith);
  port = unset r.host_service_port (ground arith);
}

resolvers_good : (ds : List ℕ) → any bad_resolver ds ≡ false → All IsResolver ds
resolvers_good [] h = tt
resolvers_good (d ∷ ds) h = (
  (valid_guest_unicast-IsUnicast d (ground arith), ground arith, ground arith),
  resolvers_good ds (ground arith),
)

good_port : (o : Option ℕ) → lacks_port o ≡ false → (port : ℕ) × (o ≡ some port) × (1 ≤ port)
good_port none h = absurd (ground arith)
good_port (some port) h = (port, refl, ground arith)

present : (o : Option ℕ) (n : ℕ) → ok_or o invalid_network_configuration ≡ ok n → o ≡ some n
present none n h = absurd (ground arith)
present (some m) n h = ground arith

module _ (r : GuestRunRequest) (guest prefix : ℕ) where
  bad_host_service-IsServed :
      (host : ℕ)
      → r.host_service_ipv4 ≡ some host
      → bad_host_service r guest (prefix_mask prefix) host ≡ false
      → (port : ℕ) × IsServed r guest prefix host port
  unfolding bad_host_service
  bad_host_service-IsServed host named good =
      let (port, listening, reachable) = good_port r.host_service_port (ground arith) in
      (
        port,
        record {
          named = named;
          neighbour = record {
            unicast = valid_guest_unicast-IsUnicast host (ground arith);
            distinct = λ e. ground arith;
            alongside = ground arith;
          };
          listening = listening;
          reachable = reachable;
          routeless = unset r.gateway_ipv4 (ground arith);
          resolverless = without r.dns_servers (ground arith);
        },
      )

  bad_internet-IsRouted :
      (gateway : ℕ)
      → r.gateway_ipv4 ≡ some gateway
      → bad_internet r guest (prefix_mask prefix) gateway ≡ false
      → IsRouted r guest prefix gateway
  unfolding bad_internet
  bad_internet-IsRouted gateway named good = record {
    named = named;
    neighbour = record {
      unicast = valid_guest_unicast-IsUnicast gateway (ground arith);
      distinct = λ e. ground arith;
      alongside = ground arith;
    };
    resolvers = (filled r.dns_servers (ground arith), ground arith);
    resolving = resolvers_good r.dns_servers (ground arith);
    hostless = unset r.host_service_ipv4 (ground arith);
    portless = unset r.host_service_port (ground arith);
  }
    where
      filled : (ds : List ℕ) → is_empty ds ≡ false → 1 ≤ length ds
      filled ds h = ground arith

-- The guest's own part, and the rest of what is checked.
validate_addressing-IsOwn :
    (r : GuestRunRequest)
    → validate_addressing r ≡ ok tt
    → (guest prefix : ℕ) × IsOwn r guest prefix
      × (validate_endpoint r guest (prefix_mask prefix) ≡ ok tt)
unfolding validate_addressing
validate_addressing-IsOwn r h =
    let (guest, there, h) = >>=-eq-ok (ok_or r.guest_ipv4 invalid_network_configuration) _ h in
    let (prefix, sized, h) = >>=-eq-ok (ok_or r.prefix_length invalid_network_configuration) _ h in
    let (first, h) =
      >>-eq-ok
        (refuse_if (not (within 1 30 prefix) || not (valid_guest_unicast guest))
          invalid_network_configuration)
        _ h in
    let (second, rest) =
      >>-eq-ok
        (refuse_if
          (guest == bit_and guest (prefix_mask prefix)
            || guest == bit_or guest (u32_max - prefix_mask prefix))
          invalid_network_configuration)
        _ h in
    (
      guest,
      prefix,
      record {
        named = present r.guest_ipv4 guest there;
        sized = present r.prefix_length prefix sized;
        subnet = ground arith;
        unicast = valid_guest_unicast-IsUnicast guest (ground arith);
        inside = λ e. ground arith;
        below_last = λ e. ground arith;
      },
      rest,
    )

-- The policies that have a network.
abbrev has_network : GuestNetworkPolicy → Bool
has_network GuestNetworkPolicy.host_server = true
has_network GuestNetworkPolicy.allow_internet = true
has_network _ = false

networked :
    (r : GuestRunRequest) (policy : GuestNetworkPolicy)
    → r.network_policy ≡ policy
    → has_network policy ≡ true
    → validate_network_configuration r ≡ ok tt
    → validate_addressing r ≡ ok tt
unfolding validate_network_configuration
networked r policy e has h = ground arith

unset_network :
    (r : GuestRunRequest) (policy : GuestNetworkPolicy)
    → r.network_policy ≡ policy
    → has_network policy ≡ false
    → validate_network_configuration r ≡ ok tt
    → is_configured r ≡ false
unfolding validate_network_configuration
unset_network r policy e has h = ground arith

service_endpoint :
    (r : GuestRunRequest) (guest prefix : ℕ)
    → r.network_policy ≡ GuestNetworkPolicy.host_server
    → validate_endpoint r guest (prefix_mask prefix) ≡ ok tt
    → (ok_or r.host_service_ipv4 invalid_network_configuration >>= λ host.
        refuse_if
          (bad_host_service r guest (prefix_mask prefix) host)
          invalid_network_configuration)
      ≡ ok tt
unfolding validate_endpoint
service_endpoint r guest prefix e h = sym (rw e refl) ∙ h

internet_endpoint :
    (r : GuestRunRequest) (guest prefix : ℕ)
    → r.network_policy ≡ GuestNetworkPolicy.allow_internet
    → validate_endpoint r guest (prefix_mask prefix) ≡ ok tt
    → (ok_or r.gateway_ipv4 invalid_network_configuration >>= λ gateway.
        refuse_if (bad_internet r guest (prefix_mask prefix) gateway) invalid_network_configuration)
      ≡ ok tt
unfolding validate_endpoint
internet_endpoint r guest prefix e h = sym (rw e refl) ∙ h

pub validate_network_configuration-IsAddressed :
    (r : GuestRunRequest) (policy : GuestNetworkPolicy)
    → r.network_policy ≡ policy
    → validate_network_configuration r ≡ ok tt
    → IsAddressed policy r
validate_network_configuration-IsAddressed r GuestNetworkPolicy.host_server e h =
    let (guest, prefix, own, rest) =
      validate_addressing-IsOwn r (networked r GuestNetworkPolicy.host_server e refl h) in
    let (host, there, good) =
      >>=-eq-ok (ok_or r.host_service_ipv4 invalid_network_configuration) _
        (service_endpoint r guest prefix e rest) in
    let (port, served) =
      bad_host_service-IsServed r guest prefix host (present r.host_service_ipv4 host there)
        (refuse_if_ok _ invalid_network_configuration good) in
    (guest, prefix, host, port, own, served)
validate_network_configuration-IsAddressed r GuestNetworkPolicy.allow_internet e h =
    let (guest, prefix, own, rest) =
      validate_addressing-IsOwn r (networked r GuestNetworkPolicy.allow_internet e refl h) in
    let (gateway, there, good) =
      >>=-eq-ok (ok_or r.gateway_ipv4 invalid_network_configuration) _
        (internet_endpoint r guest prefix e rest) in
    (
      guest,
      prefix,
      gateway,
      own,
      bad_internet-IsRouted r guest prefix gateway (present r.gateway_ipv4 gateway there)
          (refuse_if_ok _ invalid_network_configuration good),
    )
validate_network_configuration-IsAddressed r GuestNetworkPolicy.deny_all e h =
    not_configured r (unset_network r GuestNetworkPolicy.deny_all e refl h)
validate_network_configuration-IsAddressed r GuestNetworkPolicy.allow_list e h =
    not_configured r (unset_network r GuestNetworkPolicy.allow_list e refl h)
validate_network_configuration-IsAddressed r GuestNetworkPolicy.capture_only e h =
    not_configured r (unset_network r GuestNetworkPolicy.capture_only e refl h)
