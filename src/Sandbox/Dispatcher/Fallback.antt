-- ===== src/Sandbox/Dispatcher/Fallback.antt =====
-- When src/sandbox/dispatcher.rs falls back to the weaker backend, and when it refuses.
use mathlib.Core.Path.{subst}
use foxhole.Prelude.{
  ap, codes, ◌≡◌, refl, Bool, true, false, ◌⊎◌, ◌↔◌, List, [], ◌∷◌, ◌++◌, arith, ok, err, Text,
  starts_with,
}
use foxhole.Sandbox.Errors.{SandboxResult, backend_selection}
use foxhole.Sandbox.Policy.{restricted_process, hyperv}
use foxhole.Sandbox.Dispatcher.{
  RequestedBackend, restricted, hyper_v, auto, CapabilityAvailability, available, unavailable,
  HyperVCapabilityEvidence, BackendSelection, fallback_warning_prefix, resolve_backend, resolve,
  unavailable_reason,
}

-- The one way to fall back.
pub record FellBack (requested : RequestedBackend) (e : HyperVCapabilityEvidence) (allow : Bool)
    : Type 0 where
  pub by_auto : requested ≡ auto
  pub no_capability : e.availability ≡ unavailable
  pub permitted : allow ≡ true

abbrev pub IsWarned : List Text → Type 0
IsWarned [] = ⊥
IsWarned (w ∷ ws) = (starts_with fallback_warning_prefix w ≡ true) × (ws ≡ [])

-- What a selection says of the request, the evidence and the permission.
pub record IsJustified (requested : RequestedBackend) (e : HyperVCapabilityEvidence) (allow : Bool)
    (s : BackendSelection) : Type 0 where
  pub recorded : s.requested ≡ requested
  pub weak : s.selected ≡ restricted_process → (requested ≡ restricted) ⊎ FellBack requested e allow
  pub strong : s.selected ≡ hyperv → e.availability ≡ available
  pub marked : (s.fallback_used ≡ true) ↔ FellBack requested e allow
  pub warned : s.fallback_used ≡ true → IsWarned s.warnings
  pub silent : s.fallback_used ≡ false → s.warnings ≡ []

starts_with-append : (p t : Text) → starts_with p (p ++ t) ≡ true
starts_with-append [] t = refl
starts_with-append (c ∷ p) t = ground (arith, starts_with-append p t)

prefix_of_warning :
    (p t : Text) (ws : List Text) → p ≡ fallback_warning_prefix → (p ++ t) ∷ [] ≡ ws → IsWarned ws
prefix_of_warning p t ws e h =
    subst IsWarned h (subst (λ q. starts_with q (p ++ t) ≡ true) e (starts_with-append p t), refl)

selected_of :
    {a b : BackendSelection} → ◌≡◌ {A = SandboxResult BackendSelection} (ok a) (ok b) → a ≡ b
selected_of h = ground arith

resolve-IsJustified :
    (requested : RequestedBackend) (a : CapabilityAvailability) (e : HyperVCapabilityEvidence)
    (allow : Bool) (s : BackendSelection)
    → e.availability ≡ a
    → resolve requested a e allow ≡ ok s
    → IsJustified requested e allow s
unfolding resolve
resolve-IsJustified restricted a e allow s x h = ground arith
resolve-IsJustified hyper_v available e allow s x h = ground arith
resolve-IsJustified hyper_v unavailable e allow s x h = ground arith
resolve-IsJustified auto available e allow s x h = ground arith
resolve-IsJustified auto unavailable e true s x h =
    let same = selected_of h in
    record {
      recorded = ground arith;
      weak = ground arith;
      strong = ground arith;
      marked = ground arith;
      warned = λ _.
          prefix_of_warning fallback_warning_prefix (codes ": " ++ unavailable_reason e) s.warnings
            refl (ap (λ (t : BackendSelection). t.warnings) same);
      silent = ground arith;
    }
resolve-IsJustified auto unavailable e false s x h = ground arith

-- A backend that was chosen is justified: the weaker one is run only on request, or by `auto`
-- without Hyper-V and with permission, which is then marked and warned of; Hyper-V is run only
-- where it is available.
pub resolve_backend-IsJustified :
    (requested : RequestedBackend) (e : HyperVCapabilityEvidence) (allow : Bool)
    (s : BackendSelection)
    → resolve_backend requested e allow ≡ ok s
    → IsJustified requested e allow s
unfolding resolve_backend
resolve_backend-IsJustified requested e allow s h =
    resolve-IsJustified requested e.availability e allow s refl h

-- The choice fails exactly when Hyper-V is missing and was asked for, or could not be replaced.
pub resolve_backend_fails_iff :
    (requested : RequestedBackend) (e : HyperVCapabilityEvidence) (allow : Bool)
    → (resolve_backend requested e allow ≡ err backend_selection) ↔ (
        (e.availability ≡ unavailable)
        × ((requested ≡ hyper_v) ⊎ ((requested ≡ auto) × (allow ≡ false))))
unfolding resolve_backend resolve
resolve_backend_fails_iff requested e allow = ground arith
