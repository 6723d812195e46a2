-- ===== src/Manager/Ledger/Methods.antt =====
-- release, submission and the end of a future keep the ledger (src/leasepool/manager.py).
use leasepool.Base.{
  ℕ, ◌+◌, ◌≡◌, refl, Bool, true, false, not, ◌&&◌, Option, none, some, [], ◌∷◌, ◌++◌, arith, leb,
  ◌⊎◌, inl, inr, Bool-cases, Option-cases, is_none, is_empty, discard, add_member,
}
use leasepool.Base.Exec.{pure, Exn, ok, ◌>>◌, raise, lease_expired, bind-keeps, Keeps, Keeps-bind}
use leasepool.Backends.{Executor}
use leasepool.Manager.Config.{Config, Submission, accepted, broken, refused}
use leasepool.Manager.State.{
  State, LeaseRecord, set_event, shut_down, hard_expires_at, monotonic, shutdown_executor,
  wake_waiters, wake_checker, shutdown_executor_from_callback, notify, on_loop,
}
use leasepool.Manager.Table.{find, update}
use leasepool.Manager.Pool.{ensure_minimum}
use leasepool.Manager.Leases.{
  retire_broken_record, finalize_released_record, release, release_idle, conclude, revoke_late,
  submit_for_lease, FutureOutcome, add_done_callback, broken_exception_from_future,
  on_lease_future_done, submitted, settle, shutdown_some, callback_shutdown, wake_if,
}
use leasepool.Manager.Ledger.Count.{Inv, one_if, count_option, count-append, count_ready-append}
use leasepool.Manager.Ledger.Sizes.{ensure-Inv}
use leasepool.Manager.Ledger.Table.{count-update, find-update}
use leasepool.Manager.Ledger.Leases.{dropped, dropped-Inv}
use leasepool.Manager.Ledger.Release.{finalize-Inv, retire-Inv}

-- A write to a record that leaves its executor and its id alone.
abbrev pub written : ℕ → (LeaseRecord → LeaseRecord) → State → State
written key f s = record s { leased = update key f s.leased }

written-Inv :
    (c : Config) (key : ℕ) (f : LeaseRecord → LeaseRecord)
    → ((r : LeaseRecord) → (f r).executor ≡ r.executor)
    → {n m k : ℕ} {s : State} → Inv c n m k s
    → Inv c n m k (written key f s)
written-Inv c key f same {n} {m} {k} {s} v = ground (arith, count-update n key f same s.leased)

notify-cases :
    (event loop : Option ℕ) (closed : Bool) (s : State)
    → ((e : ℕ) × (notify event loop closed s
          ≡ (ok tt, record s { ready = s.ready ++ set_event e ∷ [] })))
      ⊎ (notify event loop closed s ≡ (ok tt, s))
notify-cases (some e) (some l) false s = inl (e, refl)
notify-cases (some e) (some l) true s = inr refl
notify-cases (some e) none closed s = inr refl
notify-cases none loop closed s = inr refl

notify-Inv :
    (c : Config) (event loop : Option ℕ) (closed : Bool) {n m k : ℕ} {s : State}
    → Inv c n m k s
    → Inv c n m k (notify event loop closed s).1
notify-Inv c event loop closed {n} {m} {k} {s} v = elim (notify-cases event loop closed s) [
  | inl (e, same) ↦ rw same (ground (arith, count_ready-append n s.ready (set_event e ∷ [])))
  | inr same ↦ rw same v
]

-- Waking the sleepers moves no executor and does not fail.
pub wake-Inv :
    (c : Config) {n m k : ℕ} {s : State}
    → Inv c n m k s
    → Inv c n m k ((wake_waiters >> wake_checker) s).1
unfolding wake_waiters wake_checker
wake-Inv c {n} {m} {k} {s} v =
    let w = notify-Inv c s.availability_event s.loop s.loop_closed v in
    let t = (notify s.availability_event s.loop s.loop_closed s).1 in
    ground (arith, w, notify-Inv c t.scale_change_event t.loop t.loop_closed w)

pub wake_checker-Inv :
    (c : Config) {n m k : ℕ} {s : State} → Inv c n m k s → Inv c n m k (wake_checker s).1
unfolding wake_checker
wake_checker-Inv c {s = s} v = notify-Inv c s.scale_change_event s.loop s.loop_closed v

pub wake_waiters-Inv :
    (c : Config) {n m k : ℕ} {s : State} → Inv c n m k s → Inv c n m k (wake_waiters s).1
unfolding wake_waiters
wake_waiters-Inv c {s = s} v = notify-Inv c s.availability_event s.loop s.loop_closed v

-- Shutting down an executor that the method holds, directly or from a callback.
shutdown-Inv :
    (c : Config) (e : Executor) {n m k : ℕ} {s : State}
    → Inv c n m (k + one_if n e) s
    → Inv c n m k (shutdown_executor e s).1
unfolding shutdown_executor
shutdown-Inv c e {n} {m} {k} {s} v = ground (arith, count-append n s.shut (e ∷ []))

on_loop-Inv :
    (c : Config) (l : Option ℕ) (closed : Bool) (e : Executor) {n m k : ℕ} {s : State}
    → Inv c n m (k + one_if n e) s
    → Inv c n m k (on_loop l closed e s).1
on_loop-Inv c (some l) false e {n} {s = s} v =
    ground (arith, count_ready-append n s.ready (shut_down e ∷ []))
on_loop-Inv c (some l) true e {n} {s = s} v = ground (arith, count-append n s.closing (e ∷ []))
on_loop-Inv c none closed e {n} {s = s} v = ground (arith, count-append n s.closing (e ∷ []))

callback-Inv :
    (c : Config) (e : Executor) {n m k : ℕ} {s : State}
    → Inv c n m (k + one_if n e) s
    → Inv c n m k (shutdown_executor_from_callback e s).1
unfolding shutdown_executor_from_callback
callback-Inv c e {s = s} v = on_loop-Inv c s.loop s.loop_closed e v

-- What a method does with the executor that it is left with.
shutdown_some-Inv :
    (c : Config) (o : Option Executor) {n m k : ℕ} {s : State}
    → Inv c n m (k + count_option n o) s
    → Inv c n m k (shutdown_some o s).1
shutdown_some-Inv c none v = ground (arith, v)
shutdown_some-Inv c (some e) v = shutdown-Inv c e v

callback_some-Inv :
    (c : Config) (o : Option Executor) {n m k : ℕ} {s : State}
    → Inv c n m (k + count_option n o) s
    → Inv c n m k (callback_shutdown o s).1
callback_some-Inv c none v = ground (arith, v)
callback_some-Inv c (some e) v = callback-Inv c e v

wake_if-Inv :
    (c : Config) (b : Bool) {n m k : ℕ} {s : State} → Inv c n m k s → Inv c n m k (wake_if b s).1
wake_if-Inv c false v = v
wake_if-Inv c true v = wake-Inv c v

module _ (c : Config) (key : ℕ) {n k : ℕ} where
  release_idle-Inv :
      (r : LeaseRecord) (s : State)
      → find key s.leased ≡ some r
      → Inv c n 0 k s
      → Inv c n 0 k (release_idle c key r s).1
  release_idle-Inv r s found v = elim (Bool-cases (is_empty r.pending_futures)) [
    | inr busy ↦ rw busy v
    | inl idle ↦
        let final = finalize-Inv c key r s found v in
        let t = (finalize_released_record c key r s).1 in
        rw idle (
          bind-keeps (Inv c n 0 k) (finalize_released_record c key r)
            (λ (o, finalized). shutdown_some o >> wake_if finalized) s
            (λ x failed. ground (arith, final))
            λ (o, finalized) done.
              let left : Inv c n 0 (k + count_option n o) t = ground (arith, final) in
              bind-keeps (Inv c n 0 k) (shutdown_some o) (λ _. wake_if finalized) t
                (λ x failed. shutdown_some-Inv c o left)
                λ _ _. wake_if-Inv c finalized (shutdown_some-Inv c o left))
  ]

  -- `release` keeps the ledger.
  pub release-Inv : (s : State) → Inv c n 0 k s → Inv c n 0 k (release c key s).1
  unfolding release
  release-Inv s v = elim (Option-cases (find key s.leased)) [
    | inl unknown ↦ rw unknown v
    | inr (r, found) ↦
        let f : LeaseRecord → LeaseRecord = λ x. record x { release_requested = true } in
        rw found (
          release_idle-Inv (f r) (written key f s) (find-update key f (λ x. refl) s.leased found)
            (written-Inv c key f (λ x. refl) v))
  ]

module _ (c : Config) (n k : ℕ) where
  abbrev P : State → Type 0
  P = Inv c n 0 k

  settle-Inv :
      (key : ℕ) (r : LeaseRecord) (o : Option Exn) (s : State)
      → find key s.leased ≡ some r
      → P s
      → P (settle c key r o s).1
  settle-Inv key r (some e) s found v =
      let w = retire-Inv c key r s found v in
      let t = (retire_broken_record c key r s).1 in
      bind-keeps P (retire_broken_record c key r)
        (λ x. callback_shutdown x >> wake_if (not (is_none x))) s (λ x failed. ground (arith, w))
        λ x done.
          let left : Inv c n 0 (k + count_option n x) t = ground (arith, w) in
          bind-keeps P (callback_shutdown x) (λ _. wake_if (not (is_none x))) t
            (λ y failed. callback_some-Inv c x left)
            λ _ _. wake_if-Inv c (not (is_none x)) (callback_some-Inv c x left)
  settle-Inv key r none s found v =
      elim (Bool-cases (r.release_requested && is_empty r.pending_futures)) [
        | inr open_still ↦ rw open_still v
        | inl finished ↦
            let final = finalize-Inv c key r s found v in
            let t = (finalize_released_record c key r s).1 in
            rw finished (
              bind-keeps P (finalize_released_record c key r)
                (λ (x, finalized). callback_shutdown x >> wake_if finalized) s
                (λ x failed. ground (arith, final))
                λ (x, finalized) done.
                  let left : Inv c n 0 (k + count_option n x) t = ground (arith, final) in
                  bind-keeps P (callback_shutdown x) (λ _. wake_if finalized) t
                    (λ y failed. callback_some-Inv c x left)
                    λ _ _. wake_if-Inv c finalized (callback_some-Inv c x left))
      ]

  -- So does the end of a future.
  pub future_done-Inv :
      (key future : ℕ) (outcome : FutureOutcome)
      → Keeps P (on_lease_future_done c key future outcome)
  unfolding on_lease_future_done
  future_done-Inv key future outcome s v = elim (Option-cases (find key s.leased)) [
    | inl unknown ↦ rw unknown v
    | inr (r, found) ↦
        let f : LeaseRecord → LeaseRecord =
          λ x. record x { pending_futures = discard future x.pending_futures } in
        rw found (
          settle-Inv key (f r) (broken_exception_from_future outcome) (written key f s)
            (find-update key f (λ x. refl) s.leased found) (written-Inv c key f (λ x. refl) v))
  ]

  add_callback-Inv :
      (key future : ℕ) (o : Option FutureOutcome) → Keeps P (add_done_callback c key future o)
  add_callback-Inv key future none s v = v
  add_callback-Inv key future (some o) s v = future_done-Inv key future o s v

  conclude-Inv :
      (o : Option Executor) (e : Exn) (s : State)
      → Inv c n 0 (k + count_option n o) s
      → P (conclude o e s).1
  conclude-Inv none e s v = ground (arith, v)
  conclude-Inv (some x) e s v =
      bind-keeps P (shutdown_executor x) (λ _. wake_waiters >> (wake_checker >> raise e)) s
        (λ y failed. shutdown-Inv c x v)
        λ _ _.
          Keeps-bind P wake_waiters (λ _. wake_checker >> raise e) (λ t w. wake_waiters-Inv c w)
            (λ _.
              Keeps-bind P wake_checker (λ _. raise e) (λ t w. wake_checker-Inv c w) (λ _ t w. w))
            (shutdown_executor x s).1 (shutdown-Inv c x v)

  module _ (key : ℕ) (r : LeaseRecord) (s : State) (found : find key s.leased ≡ some r)
      (v : P s) where
    revoke_late-Inv : P (revoke_late c key r s).1
    revoke_late-Inv =
        let w = ensure-Inv c (dropped-Inv c key found v).0 in
        bind-keeps P (ensure_minimum c) (λ _. conclude (some r.executor) lease_expired)
          (dropped key s) (λ x failed. ground (arith, w))
          λ _ _. conclude-Inv (some r.executor) lease_expired (ensure_minimum c (dropped key s)).1 w

    submitted-Inv : (out : Submission) → P (submitted c key r out s).1
    submitted-Inv (accepted future o) =
        let f : LeaseRecord → LeaseRecord =
          λ x. record x { pending_futures = add_member future x.pending_futures } in
        Keeps-bind P (add_done_callback c key future o) (λ _. pure future)
          (add_callback-Inv key future o) (λ _ u w. w) (written key f s)
          (written-Inv c key f (λ x. refl) v)
    submitted-Inv (broken e) =
        let w = retire-Inv c key r s found v in
        bind-keeps P (retire_broken_record c key r) (λ o. conclude o e) s
          (λ x failed. ground (arith, w))
          λ o done. conclude-Inv o e (retire_broken_record c key r s).1 (ground (arith, w))
    submitted-Inv (refused e) = v

  -- A submission keeps the ledger, whatever the executor makes of it.
  pub submit-Inv : (key : ℕ) → Keeps P (submit_for_lease c key)
  unfolding submit_for_lease monotonic
  submit-Inv key s v = elim (Option-cases (find key s.leased)) [
    | inl unknown ↦ rw unknown v
    | inr (r, found) ↦ elim (Bool-cases r.release_requested) [
      | inl draining ↦ rw (found, draining) (ground arith)
      | inr active ↦ elim (Bool-cases (leb (hard_expires_at r) (c.clock s.reads))) [
        | inl late ↦
            simp (found, active, late)
              (revoke_late-Inv key r (record s { reads = s.reads + 1 }) found (ground arith))
        | inr early ↦
            simp (found, active, early)
              (submitted-Inv key r (record s { reads = s.reads + 1 + 1 }) found (ground arith)
                (c.submit (s.reads + 1)))
      ]
    ]
  ]
