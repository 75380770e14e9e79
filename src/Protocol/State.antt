-- ===== src/Protocol/State.antt =====
-- `ProtocolActor` and `ProtocolState` of src/sandbox/hyperv/guest_protocol.rs.
use foxhole.Prelude.{Bool, true, false, List, [], ◌∷◌, ◌||◌, Text, codes}

pub data ProtocolActor : Type 0 where
  host guest : ProtocolActor

pub data ProtocolState : Type 0 where
  host_ready request_written start_allowed cancel_requested : ProtocolState
  guest_ready running completed failed shutdown_ready : ProtocolState

unfoldable pub actor : ProtocolState → ProtocolActor
actor host_ready = host
actor request_written = host
actor start_allowed = host
actor cancel_requested = host
actor guest_ready = guest
actor running = guest
actor completed = guest
actor failed = guest
actor shutdown_ready = guest

unfoldable pub file_name : ProtocolState → Text
file_name host_ready = codes "host-ready.json"
file_name request_written = codes "request-written.json"
file_name start_allowed = codes "start-allowed.json"
file_name cancel_requested = codes "cancel-requested.json"
file_name guest_ready = codes "guest-ready.json"
file_name running = codes "running.json"
file_name completed = codes "completed.json"
file_name failed = codes "failed.json"
file_name shutdown_ready = codes "shutdown-ready.json"

-- the derived `PartialEq` of the two enums
infix 50 ◌=actor◌ ◌=state◌
abbrev pub ◌=actor◌ : ProtocolActor → ProtocolActor → Bool
host =actor host = true
guest =actor guest = true
_ =actor _ = false

abbrev pub ◌=state◌ : ProtocolState → ProtocolState → Bool
host_ready =state host_ready = true
request_written =state request_written = true
start_allowed =state start_allowed = true
cancel_requested =state cancel_requested = true
guest_ready =state guest_ready = true
running =state running = true
completed =state completed = true
failed =state failed = true
shutdown_ready =state shutdown_ready = true
_ =state _ = false

-- `HashSet::contains`, over the states that were inserted
abbrev pub contains : List ProtocolState → ProtocolState → Bool
contains [] s = false
contains (t ∷ ts) s = (t =state s) || contains ts s
