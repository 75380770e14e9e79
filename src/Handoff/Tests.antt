-- ===== src/Handoff/Tests.antt =====
-- The hand-over at a concrete run.
use foxhole.Prelude.{◌≡◌, refl, true, false, [], none, ok, arith, codes}
use foxhole.Sandbox.Policy
use foxhole.Sandbox.Request.{SandboxRequest, hyperv_request}
use foxhole.Network.Plan.{guest_configuration}
use foxhole.Network.Tests.{
  windows, gateway, gateway_valid, gateway-IsWide, planned, active, directory, leased, lease, run,
  root, plan_made, plan_activated,
}
use foxhole.Ipv4.{ipv4, same_subnet, network_address, broadcast_address}
use foxhole.Network.Gateway.{
  ControlledGatewayConfig, validate_gateway, validate_identifier, validate_unicast, bad_settings,
  bad_pool, bad_endpoint, allocation_directory_is_allowed,
}
use foxhole.Protocol.Request.{valid_guest_unicast}
use foxhole.Handoff.Unicast.{validate_gateway-valid_guest_unicast}
use foxhole.Handoff.{Host}
use foxhole.Handoff.Runs.{Agrees, activate-Agrees}

abbrev host : Host
host = record {
  extension = λ path. none;
  print_network = λ network. [];
  parse_ip = λ text. none;
  is_absolute = λ path. true;
}

abbrev request : SandboxRequest
request = record (hyperv_request (codes "sample.exe")) { network_policy = Policy.host_server }

activate-Agrees_example : Agrees host request run none lease (guest_configuration active)
activate-Agrees_example =
    activate-Agrees host request windows gateway planned active directory leased run root none lease
      gateway-IsWide plan_made plan_activated

validate_gateway-valid_guest_unicast_example : valid_guest_unicast (ipv4 192 168 250 15) ≡ true
validate_gateway-valid_guest_unicast_example =
    validate_gateway-valid_guest_unicast windows gateway (ipv4 192 168 250 15) gateway_valid
      gateway-IsWide (omega arith) (omega arith) (omega arith)

-- With a shorter prefix the pool's ends can lie on either side of addresses that no guest can have.
abbrev straddling : ControlledGatewayConfig
straddling = record gateway {
  host_ipv4 = ipv4 169 253 0 1;
  prefix_length = 8;
  guest_address_start = ipv4 169 253 0 2;
  guest_address_end = ipv4 169 255 0 2;
}

straddling_valid : validate_gateway windows straddling ≡ ok tt
unfolding validate_gateway validate_identifier validate_unicast bad_settings bad_pool bad_endpoint
    allocation_directory_is_allowed same_subnet network_address broadcast_address
straddling_valid = refl

straddling_refused : valid_guest_unicast (ipv4 169 254 0 2) ≡ false
unfolding valid_guest_unicast
straddling_refused = refl
