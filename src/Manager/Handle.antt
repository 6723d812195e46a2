-- ===== src/Manager/Handle.antt =====
-- ExecutorLease and _LeasedExecutorProxy (src/leasepool/manager.py): what acquire hands out.
use leasepool.Base.{ℕ, ◌+◌, Bool, true, List, [], ◌∷◌, if◌then◌else◌}
use leasepool.Base.Exec.{Exec, ok, raised, runtime_error, pure, raise, modify, ◌>>=◌, ◌>>◌}
use leasepool.Manager.Config.{Config}
use leasepool.Manager.State.{State, Action}
use leasepool.Manager.Leases.{release, submit_for_lease}
use leasepool.Manager.Acquire.{ExecutorLease}

-- `ExecutorLease.soft_expires_at`, `ExecutorLease.hard_expires_at`
abbrev pub lease_soft_expires_at : ExecutorLease → ℕ
lease_soft_expires_at l = l.leased_at + l.lease_seconds

abbrev pub lease_hard_expires_at : ExecutorLease → ℕ
lease_hard_expires_at l = lease_soft_expires_at l + l.grace_seconds

-- A method of a lease works on the lease and on its manager.
abbrev pub LeaseAction : Type 0 → Type 0
LeaseAction = Exec (ExecutorLease × State)

abbrev pub on_manager : {A : Type 0} → Action A → LeaseAction A
on_manager m (l, s) = let (r, t) = m s in (r, (l, t))

-- `ExecutorLease.release`
unfoldable pub lease_release : Config → LeaseAction (Unit {0})
lease_release c (l, s) =
    (if l.released then pure tt else do
      modify λ (x, t). (record x { released = true }, t)
      on_manager (release c l.lease_id))
      (l, s)

-- What run_in_executor is given to call: a function with its arguments, or a functools.partial.
pub data Call (F A K V : Type 0) : Type 0 where
  plain : F → List A → Call F A K V
  partial : F → List A → List (K × V) → Call F A K V

-- `ExecutorLease.run`, up to the await of the future: what is called, and the future that the
-- proxy's submit returns.
abbrev pub packed : {F A K V : Type 0} → F → List A → List (K × V) → Call F A K V
packed fn args [] = plain fn args
packed fn args (kw ∷ kwargs) = partial fn args (kw ∷ kwargs)

unfoldable pub lease_run :
    {F A K V : Type 0} → Config → F → List A → List (K × V) → LeaseAction (Call F A K V × ℕ)
lease_run c fn args kwargs (l, s) =
    (do future ← on_manager (submit_for_lease c l.lease_id); pure (packed fn args kwargs, future))
      (l, s)

-- `_LeasedExecutorProxy.shutdown`
unfoldable pub proxy_shutdown : Bool → Bool → LeaseAction (Unit {0})
proxy_shutdown wait cancel_futures = raise runtime_error

-- `async with lease:` around `body`: __aexit__ releases the lease whether the body returns or raises,
-- and an exception of the body goes on unless the release raises.
unfoldable pub within_lease : {A : Type 0} → Config → LeaseAction A → LeaseAction A
unfolding lease_release
within_lease c body h =
    let (r, h') = body h in
    let (r', h'') = lease_release c h' in elim r' [ ok _ ↦ (r, h'') | raised e ↦ (raised e, h'') ]
