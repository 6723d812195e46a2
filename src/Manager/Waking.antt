-- ===== src/Manager/Waking.antt =====
-- _wake_waiters and _wake_checker of src/leasepool/manager.py.
use leasepool.Base.{
  ℕ, ◌≡◌, refl, Bool, true, false, Option, none, some, List, [], ◌∷◌, ◌++◌, arith, if◌then◌else◌,
}
use mathlib.Core.List.{append-nil, append_assoc}
use leasepool.Base.Exec.{ok}
use leasepool.Manager.State.{State, Callback, set_event, notify, wake_waiters, wake_checker}
use leasepool.Manager.Leases.{wake_if}

-- What `notify` puts on the loop.
abbrev pub note : Option ℕ → Option ℕ → Bool → List Callback
note (some event) (some loop) false = set_event event ∷ []
note _ _ _ = []

pub notify_lem :
    (event loop : Option ℕ) (closed : Bool) (s : State)
    → notify event loop closed s ≡ (ok tt, record s { ready = s.ready ++ note event loop closed })
notify_lem (some e) (some l) false s = refl
notify_lem (some e) (some l) true s = ground (arith, append-nil s.ready)
notify_lem (some e) none closed s = ground (arith, append-nil s.ready)
notify_lem none loop closed s = ground (arith, append-nil s.ready)

-- The calls that wake all who wait for an executor, and the checker.
abbrev pub notes : State → List Callback
notes s =
    note s.availability_event s.loop s.loop_closed ++ note s.scale_change_event s.loop s.loop_closed

abbrev pub alerted : Bool → State → State
alerted b s = record s { ready = s.ready ++ (if b then notes s else []) }

pub wake_if_lem : (b : Bool) (s : State) → wake_if b s ≡ (ok tt, alerted b s)
unfolding wake_waiters wake_checker
wake_if_lem false s = ground (arith, append-nil s.ready)
wake_if_lem true s =
    let first = note s.availability_event s.loop s.loop_closed in
    ground (
      arith,
      notify_lem s.availability_event s.loop s.loop_closed s,
      notify_lem s.scale_change_event s.loop s.loop_closed (record s { ready = s.ready ++ first }),
      append_assoc s.ready first (note s.scale_change_event s.loop s.loop_closed),
    )
