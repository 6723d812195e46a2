-- ===== src/Manager/Submitting.antt =====
-- Which work LeasedExecutorManager._submit_for_lease (src/leasepool/manager.py) lets through.
use leasepool.Base.{
  sym, ap, subst, ◌∙◌, ◌↔◌, ℕ, ◌+◌, false, Option, none, some, ◌<◌, ◌≡◌, refl, arith, inl, inr, leb,
  Option-cases, Bool-cases, add_member,
}
use leasepool.Base.Exec.{Exn, raise, ◌>>=◌, ◌>>◌, lease_expired, ok, raised, Result-cases}
use leasepool.Backends.{Executor}
use leasepool.Manager.Config.{Config, Submission, accepted, broken, refused}
use leasepool.Manager.State.{
  State, Action, shutdown_executor, LeaseRecord, hard_expires_at, monotonic, wake_waiters,
  wake_checker,
}
use leasepool.Manager.Table.{find, update}
use leasepool.Manager.Pool.{ensure_minimum}
use leasepool.Manager.Leases.{
  FutureOutcome, add_done_callback, submit_for_lease, submitted, revoke_late, conclude,
  retire_broken_record, drop_record,
}

-- The clock and the executor were asked, and the lease waits for the future `f`.
abbrev pub submitting : ℕ → ℕ → State → State
submitting id f s = record s {
  reads = s.reads + 2;
  leased = update id (λ x. record x { pending_futures = add_member f x.pending_futures }) s.leased;
}

-- What is true when `submit` on lease `id` returns future `f`.
pub record Submitted (c : Config) (id f : ℕ) (r : LeaseRecord) (s t : State) : Type 0 where
  pub active : find id s.leased ≡ some r
  pub not_released : r.release_requested ≡ false
  pub in_time : c.clock s.reads < hard_expires_at r
  pub outcome : Option FutureOutcome
  pub taken : c.submit (s.reads + 1) ≡ accepted f outcome
  pub result : t ≡ (add_done_callback c id f outcome (submitting id f s)).1

-- An action that never returns.
abbrev Raises : {A : Type 0} → Action A → Type 0
Raises m = (s : State) → (e : Exn) × ((m s).0 ≡ raised e)

bind-Raises :
    {A B : Type 0} (m : Action A) (k : A → Action B) → ((a : A) → Raises (k a)) → Raises (m >>= k)
bind-Raises m k h s = elim (Result-cases (m s).0) [
  | inl (a, e) ↦ let (x, e') = h a (m s).1 in (x, rw (e, ◌>>=◌) e')
  | inr (x, e) ↦ (x, rw (e, ◌>>=◌) refl)
]

then-Raises : {A B : Type 0} (m : Action A) (k : Action B) → Raises k → Raises (m >> k)
then-Raises m k h = bind-Raises m (λ _. k) (λ _. h)

conclude-Raises : (x : Option Executor) (e : Exn) → Raises (conclude x e)
conclude-Raises none e s = (e, refl)
conclude-Raises (some x) e s =
    then-Raises (shutdown_executor x) (wake_waiters >> (wake_checker >> raise e))
      (then-Raises wake_waiters (wake_checker >> raise e)
        (then-Raises wake_checker (raise e) (λ t. (e, refl))))
      s

revoke_late-Raises : (c : Config) (id : ℕ) (r : LeaseRecord) → Raises (revoke_late c id r)
revoke_late-Raises c id r =
    then-Raises (drop_record id) (ensure_minimum c >> conclude (some r.executor) lease_expired) (
      then-Raises (ensure_minimum c) (conclude (some r.executor) lease_expired)
        (conclude-Raises (some r.executor) lease_expired))

broken-Raises :
    (c : Config) (id : ℕ) (r : LeaseRecord) (e : Exn) → Raises (submitted c id r (broken e))
broken-Raises c id r e =
    bind-Raises (retire_broken_record c id r) (λ x. conclude x e) (λ x. conclude-Raises x e)

add_done_callback-ok :
    (c : Config) (id f : ℕ) (o : Option FutureOutcome) (s : State)
    → (add_done_callback c id f o s).0 ≡ ok tt
add_done_callback-ok c id f none s = refl
add_done_callback-ok c id f (some x) s = refl

abbrev added : ℕ → ℕ → State → State
added id f s = record s {
  leased = update id (λ x. record x { pending_futures = add_member f x.pending_futures }) s.leased;
}

submitted-accepted :
    (c : Config) (id f : ℕ) (r : LeaseRecord) (o : Option FutureOutcome) (s : State)
    → submitted c id r (accepted f o) s ≡ (ok f, (add_done_callback c id f o (added id f s)).1)
submitted-accepted c id f r o s = rw (add_done_callback-ok c id f o (added id f s), ◌>>=◌) refl

submitted-ok :
    (c : Config) (id f : ℕ) (r : LeaseRecord) (o : Submission) (s t : State)
    → submitted c id r o s ≡ (ok f, t)
    → (d : Option FutureOutcome) × (o ≡ accepted f d)
      × (t ≡ (add_done_callback c id f d (added id f s)).1)
submitted-ok c id f r (accepted g d) s t h =
    let e = sym (submitted-accepted c id g r d s) ∙ h in
    let same : g ≡ f = ground (arith, e) in
    let end : t ≡ (add_done_callback c id g d (added id g s)).1 = sym (ap (λ p. p.1) e) in
    (
      d,
      ap (λ n. accepted n d) same,
      subst (λ n. t ≡ (add_done_callback c id n d (added id n s)).1) same end,
    )
submitted-ok c id f r (broken e) s t h =
    let (x, fails) = broken-Raises c id r e s in absurd (ground (arith, h, fails))
submitted-ok c id f r (refused e) s t h = absurd (ground (arith, h))

submit_for_lease-ok :
    (c : Config) (id f : ℕ) (s t : State)
    → submit_for_lease c id s ≡ (ok f, t)
    → (r : LeaseRecord) × Submitted c id f r s t
unfolding submit_for_lease monotonic
submit_for_lease-ok c id f s t h = elim (Option-cases (find id s.leased)) [
  | inl none_ ↦ ground arith
  | inr (r, e) ↦ elim (Bool-cases r.release_requested) [
    | inl released ↦ ground arith
    | inr open_ ↦ elim (Bool-cases (leb (hard_expires_at r) (c.clock s.reads))) [
      | inl late ↦
          let (x, fails) = revoke_late-Raises c id r (record s { reads = s.reads + 1 }) in
          ground arith
      | inr soon ↦
          let (d, took, after) =
            submitted-ok c id f r (c.submit (s.reads + 1)) (record s { reads = s.reads + 1 + 1 }) t
              (ground arith) in
          let count : s.reads + 1 + 1 ≡ s.reads + 2 = omega arith in
          (
            r,
            record {
              active = e;
              not_released = open_;
              in_time = ground arith;
              outcome = d;
              taken = took;
              result =
                  subst
                    (λ n. t ≡ (add_done_callback c id f d (added id f (record s { reads = n }))).1)
                    count after;
            },
          )
    ]
  ]
]

Submitted-submit_for_lease :
    (c : Config) (id f : ℕ) (s t : State) (r : LeaseRecord)
    → Submitted c id f r s t
    → submit_for_lease c id s ≡ (ok f, t)
unfolding submit_for_lease monotonic
Submitted-submit_for_lease c id f s t r h =
    let late : leb (hard_expires_at r) (c.clock s.reads) ≡ false = ground (arith, h.in_time) in
    let u : State = record s { reads = s.reads + 1 + 1 } in
    let took = submitted-accepted c id f r h.outcome u in
    let begins : submit_for_lease c id s ≡ submitted c id r (c.submit (s.reads + 1)) u =
      ground (arith, h.active, h.not_released, late) in
    let count : s.reads + 1 + 1 ≡ s.reads + 2 = omega arith in
    begins
    ∙ ap (λ o. submitted c id r o u) h.taken
    ∙ took
    ∙ ap (λ n. (ok f, (add_done_callback c id f h.outcome (added id f (record s { reads = n }))).1))
        count
    ∙ ap (λ v. (ok f, v)) (sym h.result)

-- `submit` returns a future exactly when the lease is active and not released, the clock shows a
-- time before its hard deadline, and the executor takes the call under that future. All that it
-- then changes is that the lease waits for that future, and, where the future is done before its
-- callback is added, what the callback does about it at once, as in _on_lease_future_done.
pub submit_for_lease_iff :
    (c : Config) (id f : ℕ) (s t : State)
    → (submit_for_lease c id s ≡ (ok f, t)) ↔ ((r : LeaseRecord) × Submitted c id f r s t)
submit_for_lease_iff c id f s t =
    (submit_for_lease-ok c id f s t, λ (r, h). Submitted-submit_for_lease c id f s t r h)
