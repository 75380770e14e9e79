-- ===== src/Lib.antt =====
-- A verification library of Foxhole, a sandbox that runs a program on Windows under observation.
--
-- Its host, the crate in src/, picks a sandbox (sandbox/dispatcher.rs), checks the request
-- (sandbox/backend.rs) and, for a Hyper-V run, plans and leases the guest's network
-- (sandbox/hyperv/network.rs), writes a request for the agent in the guest and follows the agent
-- over status records (sandbox/hyperv/guest_protocol.rs). The agent (guest-agent/) waits for the
-- host's records, publishes its own and answers with a result whose metadata the same file
-- validates. The host then checks the records it finds (sandbox/hyperv/result_collector.rs) and
-- makes a report of what was observed (report_analysis/). The paths below are from the
-- repository's root.
--
--   * Prelude: Booleans of the source's tests, lists and `Result` measured by native numbers, and
--     Rust's `str` as a list of code points, with `len()` as the bytes of UTF-8.
--   * Detection: src/detection/config.rs, `Limits::validate`, `DetectionConfig::validate`,
--     `DetectionConfig::public` (public_view).
--   * Protocol: src/sandbox/hyperv/guest_protocol.rs. Fields has the validators of single fields,
--     Status the status records, Machine `ProtocolStateMachine`, whose hash set of states is a
--     list, Request `GuestRunRequest::validate`, Envelope `GuestResultEnvelope::validate_metadata`.
--   * Ipv4: the address arithmetic and the CIDR lists of src/sandbox/hyperv/network.rs. An address
--     is its number. `range_to_cidrs` has one unit of fuel for each of the range's
--     addresses, enough since each block has at least one.
--   * Sandbox: src/sandbox/backend.rs (`SandboxRequest`, `NetworkPolicy`, `IpNetwork`),
--     src/sandbox/dispatcher.rs (`resolve_backend`) and the file-name rules of src/artifact.rs.
--   * Network: src/sandbox/hyperv/network.rs. Gateway has `validate_gateway` and `validate_mode`,
--     Lease `allocate_guest_address` over a directory of lease files, Firewall the rules that
--     `activate` makes, Plan `plan`, `activate` and `guest_configuration`. A panic of an `expect`
--     is an outcome of its own. Leases are files of a directory that is passed along: creation
--     with `create_new` fails exactly on a file that is there, and which files cannot be opened,
--     written or removed is a parameter of the directory. A subtraction of weights that would
--     overflow is a panic.
--   * Handoff: `build_guest_request` of src/sandbox/hyperv/backend.rs, which joins the three.
--   * Sandbox.CommandLine: the quoting of arguments in src/sandbox/sandbox_utils.rs. Parsing has the
--     documented rules of CommandLineToArgvW as the laws of a parameter, Splitter a parser that
--     keeps them.
--   * Publisher: `StatusPublisher` of guest-agent/src/artifacts.rs. The status directory is the file
--     of each state (absent, unreadable, malformed or a record) and is passed along; a round of the
--     wait for the host sees the directory as it is at that time, and the rounds that the time
--     allows are a list. Whether the file system writes a new file is an argument.
--   * Collection: `validate_status_chain` of src/sandbox/hyperv/result_collector.rs, over the same
--     files and what enumerating the directory gives. Archive has `collect_directory`, over a tree as
--     it is enumerated; what comes of copying a file is part of the tree, and
--     names follow the rules that the Windows build applies.
--   * Report: report_analysis/. Model has the structures of model.rs, Timeline and Processes
--     process_index.rs, Burst `mass_file_finding` of verdict.rs, Scores `deduplicate_scores` of
--     correlation.rs. A `BTreeMap` is its lookups, a `BTreeSet` the list of its elements. The shared
--     counter of the association budget is passed along. The window of the loop over file events is
--     the slice `events[start..=end]`; an index out of range is an outcome of its own. A confidence
--     is in hundredths.
--
-- Not in src/, and so parameters: `std::path` and the environment (Network.Platform), the address
-- parsers of `std::net`, `str::to_lowercase`, the JSON values that reports carry along, and the
-- Hyper-V switch that enforces the rules (Network.Firewall.Weights.Switch), of which only the
-- documented decision by weight is assumed: of the rules that apply the heaviest decides.
-- Weighing has a switch that does so.
--
-- Error messages are left out; an error is its code or stage. Rule addresses are numbers and
-- blocks, where the source prints them. Not modelled: the Windows restricted process, the
-- PowerShell scripts, disks and images of a Hyper-V run, the bytes of the copied result files,
-- the loading of reports and their other findings, the agent's monitors, and the command line.
pub mod Prelude
pub mod Detection
pub mod Protocol
pub mod Ipv4
pub mod Collection
pub mod Publisher
pub mod Report
pub mod Sandbox
pub mod Network
pub mod Handoff
