-- ===== src/Network/Lease.antt =====
-- `allocate_guest_address` of src/sandbox/hyperv/network.rs, over a directory of lease files.
pub mod Exclusion
use foxhole.Prelude.{
  ℕ, zero, suc, ◌+◌, ◌-◌, ◌*◌, ◌/◌, ◌%◌, ◌^◌, Bool, true, false, not, ◌||◌, List, [], ◌∷◌, ◌++◌,
  ltb, if◌then◌else◌, Result, ok, err, Text, codes, ◌=text◌,
}
use foxhole.Sandbox.Errors.{SandboxResult, hyperv_network_allocation}

pub record GuestAddressLease : Type 0 where
  pub run_id : Text
  pub address : ℕ
  pub path : Text

-- The allocation directory: the lease files in it, each under the lease that it is for, whether it could be protected, pinned and
-- found a plain absolute directory, and which files cannot be opened, written or removed.
pub record Directory : Type 0 where
  pub secured : Bool
  pub leases : List GuestAddressLease
  pub cannot_open : Text → Bool
  pub cannot_write : Text → Bool
  pub cannot_remove : Text → Bool

-- A byte in decimal.
abbrev decimal : ℕ → Text
decimal n =
    if ltb n 10
    then (b'0' + n) ∷ []
    else if ltb n 100
    then (b'0' + n / 10) ∷ (b'0' + n % 10) ∷ []
    else (b'0' + n / 100) ∷ (b'0' + n / 10 % 10) ∷ (b'0' + n % 10) ∷ []

-- `{address}` with `_` for `.`, and the extension
unfoldable pub lease_name : ℕ → Text
lease_name a =
    decimal (a / 2 ^ 24 % 256)
    ++ (b'_'
        ∷ (decimal (a / 2 ^ 16 % 256)
            ++ (b'_'
                ∷ (decimal (a / 2 ^ 8 % 256) ++ (b'_' ∷ (decimal (a % 256) ++ codes ".lease"))))))

abbrev pub has_file : List GuestAddressLease → Text → Bool
has_file [] path = false
has_file (l ∷ ls) path = (l.path =text path) || has_file ls path

module _ (join : Text → Text) where
  -- The loop, over the addresses that are left. A file that is there is skipped. One whose writing
  -- fails is removed again; if that fails too, which is ignored, the file stays and its address is
  -- occupied.
  unfoldable pub allocate_from :
      ℕ → ℕ → Directory → Text → Directory × SandboxResult GuestAddressLease
  unfolding lease_name
  allocate_from zero raw d run_id = (d, err hyperv_network_allocation)
  allocate_from (suc left) raw d run_id =
      let path = join (lease_name raw) in
      let lease : GuestAddressLease = record { run_id = run_id; address = raw; path = path } in
      let next = allocate_from left (raw + 1) d run_id in
      if has_file d.leases path
      then next
      else if d.cannot_open path
      then (d, err hyperv_network_allocation)
      else if d.cannot_write path
      then (
        if d.cannot_remove path then record d { leases = lease ∷ d.leases } else d,
        err hyperv_network_allocation,
      )
      else (record d { leases = lease ∷ d.leases }, ok lease)

  unfoldable pub allocate_guest_address :
      Directory → ℕ → ℕ → Text → Directory × SandboxResult GuestAddressLease
  unfolding allocate_from
  allocate_guest_address d start end run_id =
      if not d.secured
      then (d, err hyperv_network_allocation)
      else allocate_from (end + 1 - start) start d run_id
