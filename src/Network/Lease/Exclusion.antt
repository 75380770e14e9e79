-- ===== src/Network/Lease/Exclusion.antt =====
-- What an allocation of src/sandbox/hyperv/network.rs reserves, and that no two runs share it.
use foxhole.Prelude.{
  ℕ, zero, suc, ◌+◌, ◌-◌, ◌≤◌, ◌<◌, ◌≡◌, ◌≢◌, refl, sym, ap, ◌∙◌, Bool, true, false, not, List, ◌∷◌,
  arith, Bool-cases, inl, inr, ◌⊎◌, ok, err, Text, =text_iff, if◌then◌else◌,
}
use native.Mathlib.Decide.{dec_lt}
use foxhole.Sandbox.Errors.{SandboxResult, hyperv_network_allocation}
use foxhole.Network.Lease.{
  GuestAddressLease, Directory, lease_name, has_file, allocate_from, allocate_guest_address,
}

module _ (join : Text → Text) where
  -- The lease is the first free address of the pool, and its file is the one that was added.
  pub record IsFirstFree (d : Directory) (start end : ℕ) (run_id : Text) (d' : Directory)
      (l : GuestAddressLease) : Type 0 where
    pub from : start ≤ l.address
    pub to : l.address ≤ end
    pub owner : l.run_id ≡ run_id
    pub file : l.path ≡ join (lease_name l.address)
    pub free : has_file d.leases l.path ≡ false
    pub added : d'.leases ≡ l ∷ d.leases
    pub first : (a : ℕ) → start ≤ a → a < l.address → has_file d.leases (join (lease_name a)) ≡ true

  -- What stays of a failure: nothing new, or the file of the first free address, which could be
  -- neither written nor removed.
  abbrev pub Leaves : Directory → ℕ → ℕ → Text → Directory → Type 0
  Leaves d start end run_id d' =
      (d' ≡ d)
      ⊎ ((l : GuestAddressLease) × IsFirstFree d start end run_id d' l
          × (d.cannot_write l.path ≡ true)
          × (d.cannot_remove l.path ≡ true))

  -- An allocation succeeds with such a lease, or fails and leaves at most one file behind.
  abbrev pub Allocates :
      Directory → ℕ → ℕ → Text → Directory × SandboxResult GuestAddressLease → Type 0
  Allocates d start end run_id (d', ok l) = IsFirstFree d start end run_id d' l
  Allocates d start end run_id (d', err e) = Leaves d start end run_id d'

  -- A file that is there is not the first free one.
  later-IsFirstFree :
      (d : Directory) (start end : ℕ) (run_id : Text) (d' : Directory) (l : GuestAddressLease)
      → has_file d.leases (join (lease_name start)) ≡ true
      → IsFirstFree d (start + 1) end run_id d' l
      → IsFirstFree d start end run_id d' l
  later-IsFirstFree d start end run_id d' l there h = record {
    from = omega (arith, h.from);
    to = h.to;
    owner = h.owner;
    file = h.file;
    free = h.free;
    added = h.added;
    first = λ a lo hi. first a lo hi (dec_lt start a);
  }
    where
      at_start : (a : ℕ) → a ≡ start → has_file d.leases (join (lease_name a)) ≡ true
      at_start a e = rw e there

      first :
          (a : ℕ)
          → start ≤ a
          → a < l.address
          → Dec (start < a)
          → has_file d.leases (join (lease_name a)) ≡ true
      first a lo hi (yes p) = h.first a (omega arith) hi
      first a lo hi (no p) = at_start a (omega arith)

  allocate_from_skips :
      (d : Directory) (start end : ℕ) (run_id : Text)
      (r : Directory × SandboxResult GuestAddressLease)
      → has_file d.leases (join (lease_name start)) ≡ true
      → Allocates d (start + 1) end run_id r
      → Allocates d start end run_id r
  allocate_from_skips d start end run_id (d', ok l) there h =
      later-IsFirstFree d start end run_id d' l there h
  allocate_from_skips d start end run_id (d', err e) there (inl same) = inl same
  allocate_from_skips d start end run_id (d', err e) there (inr (l, h, writes, removes)) =
      inr (l, later-IsFirstFree d start end run_id d' l there h, writes, removes)

  -- The lease of an address, and the directory with its file.
  abbrev lease_of : ℕ → Text → GuestAddressLease
  lease_of a run_id = record { run_id = run_id; address = a; path = join (lease_name a) }

  abbrev with_file : Directory → ℕ → Text → Directory
  with_file d a run_id = record d { leases = lease_of a run_id ∷ d.leases }

  free-IsFirstFree :
      (start end : ℕ) (d : Directory) (run_id : Text)
      → has_file d.leases (join (lease_name start)) ≡ false
      → start ≤ end
      → IsFirstFree d start end run_id (with_file d start run_id) (lease_of start run_id)
  free-IsFirstFree start end d run_id free within = record {
    from = omega arith;
    to = within;
    owner = refl;
    file = refl;
    free = free;
    added = refl;
    first = λ a lo hi. absurd (omega (arith, lo, hi));
  }

  -- a file that is not there is opened and written, or the loop ends
  taken :
      (start end : ℕ) (d : Directory) (run_id : Text)
      (cannot_open cannot_write cannot_remove : Bool)
      → d.cannot_write (join (lease_name start)) ≡ cannot_write
      → d.cannot_remove (join (lease_name start)) ≡ cannot_remove
      → has_file d.leases (join (lease_name start)) ≡ false
      → start ≤ end
      → Allocates d start end run_id (
          if cannot_open
          then (d, err hyperv_network_allocation)
          else if cannot_write
          then (
            if cannot_remove then with_file d start run_id else d,
            err hyperv_network_allocation,
          )
          else (with_file d start run_id, ok (lease_of start run_id)))
  taken start end d run_id true w r writes removes free within = inl refl
  taken start end d run_id false true true writes removes free within =
      inr (lease_of start run_id, free-IsFirstFree start end d run_id free within, writes, removes)
  taken start end d run_id false true false writes removes free within = inl refl
  taken start end d run_id false false r writes removes free within =
      free-IsFirstFree start end d run_id free within

  allocate_from-Allocates :
      (left start end : ℕ) (d : Directory) (run_id : Text)
      → end + 1 ≡ start + left
      → Allocates d start end run_id (allocate_from join left start d run_id)
  unfolding allocate_from
  allocate_from-Allocates zero start end d run_id e = inl refl
  allocate_from-Allocates (suc left) start end d run_id e =
      elim (Bool-cases (has_file d.leases (join (lease_name start)))) [
        | inl there ↦ rw there (
            allocate_from_skips d start end run_id (allocate_from join left (start + 1) d run_id)
              there (allocate_from-Allocates left (start + 1) end d run_id (omega arith)))
        | inr free ↦ rw free (
            taken start end d run_id (d.cannot_open (join (lease_name start)))
              (d.cannot_write (join (lease_name start))) (d.cannot_remove (join (lease_name start)))
              refl refl free (omega arith))
      ]

  guarded :
      (d : Directory) (start end : ℕ) (run_id : Text) (secured : Bool)
      → start ≤ end + 1
      → Allocates d start end run_id (
          if not secured
          then (d, err hyperv_network_allocation)
          else allocate_from join (end + 1 - start) start d run_id)
  guarded d start end run_id true b =
      allocate_from-Allocates (end + 1 - start) start end d run_id (omega arith)
  guarded d start end run_id false b = inl refl

  -- An allocation from a pool that starts no later than just after its end reserves the pool's
  -- first address without a lease file, and adds exactly that file; or it fails and leaves the
  -- directory as it was, but for the file of that address if it could be neither written nor
  -- removed: it stays, and the address is occupied.
  pub allocate_guest_address-Allocates :
      (d : Directory) (start end : ℕ) (run_id : Text)
      → start ≤ end + 1
      → Allocates d start end run_id (allocate_guest_address join d start end run_id)
  unfolding allocate_guest_address
  allocate_guest_address-Allocates d start end run_id b = guarded d start end run_id d.secured b

  has_file-cons :
      (l : GuestAddressLease) (ls : List GuestAddressLease) → has_file (l ∷ ls) l.path ≡ true
  has_file-cons l ls = rw ((=text_iff l.path l.path).1 refl) refl

  -- Two successive successful allocations in the same directory, for any two runs and from pools
  -- that start no later than just after their ends, never give the same address.
  pub allocate_guest_address-exclusive :
      (d d' d'' : Directory) (start end start' end' : ℕ) (run_id run_id' : Text)
      (l l' : GuestAddressLease)
      → start ≤ end + 1
      → start' ≤ end' + 1
      → allocate_guest_address join d start end run_id ≡ (d', ok l)
      → allocate_guest_address join d' start' end' run_id' ≡ (d'', ok l')
      → l.address ≢ l'.address
  allocate_guest_address-exclusive d d' d'' start end start' end' run_id run_id' l l' b b' e e'
        same =
      let h : IsFirstFree d start end run_id d' l =
        rw e at (allocate_guest_address-Allocates d start end run_id b) in
      let h' : IsFirstFree d' start' end' run_id' d'' l' =
        rw e' at (allocate_guest_address-Allocates d' start' end' run_id' b') in
      let path : l'.path ≡ l.path =
        h'.file ∙ ap (λ a. join (lease_name a)) (sym same) ∙ sym h.file in
      let there : has_file d'.leases l'.path ≡ true =
        rw (h.added, path) (has_file-cons l d.leases) in
      let free : has_file d'.leases l'.path ≡ false = h'.free in ground arith
