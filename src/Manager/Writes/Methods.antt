-- ===== src/Manager/Writes/Methods.antt =====
-- The methods that hold the lock are made of single writes (src/leasepool/manager.py).
use leasepool.Base.{
  ℕ, zero, suc, ◌-◌, ◌+◌, ◌≤◌, leb, not, ◌≡◌, refl, Bool, true, false, ◌&&◌, is_empty, Option, none,
  some, List, [], ◌∷◌, ◌++◌, length, arith, inl, inr, Bool-cases, Option-cases, if◌then◌else◌,
}
use leasepool.Base.Exec.{pure, gets, modify, Keeps, Keeps-bind, ◌>>=◌, ◌>>◌}
use leasepool.Backends.{Executor}
use leasepool.Manager.Config.{Config}
use leasepool.Manager.State.{
  State, Action, LeaseRecord, set_event, shut_down, current_count, monotonic, shutdown_executor,
  notify, wake_waiters, wake_checker, on_loop, shutdown_executor_from_callback,
}
use leasepool.Manager.Table.{find, expired_ids}
use leasepool.Manager.Sizing.{desired_executor_count, unit_count}
use leasepool.Manager.Pool.{
  create_executor, take_or_create_available, ensure_minimum, grow, shrink,
  shrink_idle_if_above_target, pop_right,
}
use leasepool.Manager.Leases.{
  keep_within_target, before_deadline, drop_record, revoke, revoke_all, unless_empty,
  revoke_expired_leases, retire_broken_record, retire_current, should_keep, append_if,
  finalize_current, finalize_released_record, is_current, shutdown_some, wake_if, callback_shutdown,
}
use leasepool.Manager.Ledger.Pool.{create-cases, take-cases, grow-cases, grown}
use leasepool.Manager.Ledger.Count.{count-append}
use leasepool.Manager.Ledger.Sizes.{desired-cases, shrink-cases, shrunk}
use leasepool.Manager.Ledger.Release.{should_keep-cases}
use leasepool.Manager.Writes.{
  off, aside, removes, shuts, closes, calls_soon, Writes, done, more, one-Write, Writes-trans,
  Writing, Writing-bind, Writing-then,
}

-- Neither the table, nor executors on their way to a shutdown, nor what was built changes.
pub quiet :
    {uuid : ℕ → ℕ} {calm : Bool} {s t : State}
    → s.reads ≤ t.reads
    → t.leased ≡ s.leased
    → t.ready ≡ s.ready
    → t.closing ≡ s.closing
    → t.shut ≡ s.shut
    → t.started ≡ s.started
    → (calm ≡ true → off s.checker_task ≡ true → off t.checker_task ≡ true)
    → t.built ≡ s.built
    → Writes uuid calm s t
quiet on a b d e up o same = one-Write (aside on a b d e up o (λ n. rw same (omega arith)))

-- One more executor is built.
builds :
    {uuid : ℕ → ℕ} {calm : Bool} {s t : State} (e : Executor)
    → s.reads ≤ t.reads
    → t.leased ≡ s.leased
    → t.ready ≡ s.ready
    → t.closing ≡ s.closing
    → t.shut ≡ s.shut
    → t.started ≡ s.started
    → (calm ≡ true → off s.checker_task ≡ true → off t.checker_task ≡ true)
    → t.built ≡ s.built ++ e ∷ []
    → Writes uuid calm s t
builds {s = s} x on a b d e up o more_ =
    one-Write
      (aside on a b d e up o (λ n. rw more_ (omega (arith, count-append n s.built (x ∷ [])))))

pub monotonic-Writing :
    {uuid : ℕ → ℕ} {calm : Bool} → (c : Config) → Writing uuid calm (monotonic c)
unfolding monotonic
monotonic-Writing c s = quiet (omega arith) refl refl refl refl refl (λ _ h. h) refl

desired-reads : (c : Config) (s : State) → s.reads ≤ (desired_executor_count c s).1.reads
unfolding desired_executor_count unit_count
desired-reads c s = ground arith

abbrev Since : ℕ → State → Type 0
Since n s = n ≤ s.reads

keep_within-reads : (c : Config) (n : ℕ) (b : Bool) → Keeps (Since n) (keep_within_target c b)
keep_within-reads c n false s h = h
keep_within-reads c n true s h =
    Keeps-bind (Since n) (desired_executor_count c)
      (λ target. gets current_count >>= λ count. pure (leb (count + 1) target))
      (λ s h. omega (arith, desired-reads c s)) (λ target s h. h) s h

before-reads :
    (c : Config) (r : LeaseRecord) (n : ℕ) (b : Bool) → Keeps (Since n) (before_deadline c r b)
unfolding monotonic
before-reads c r n false s h = h
before-reads c r n true s h = omega arith

should_keep-reads :
    (c : Config) (r : LeaseRecord) (s : State) → s.reads ≤ (should_keep c r s).1.reads
unfolding should_keep
should_keep-reads c r s =
    Keeps-bind (Since s.reads) (before_deadline c r (not r.broken && not s.stopping))
      (keep_within_target c) (before-reads c r s.reads (not r.broken && not s.stopping))
      (keep_within-reads c s.reads) s (omega arith)

pub desired-Writing :
    {uuid : ℕ → ℕ} {calm : Bool} → (c : Config) → Writing uuid calm (desired_executor_count c)
desired-Writing c s = elim (desired-cases c s) [
  | inl (d, k, capped, e) ↦
      rw e (quiet (rw e at (desired-reads c s)) refl refl refl refl refl (λ _ h. h) refl)
  | inr (x, k, e) ↦
      rw e (quiet (rw e at (desired-reads c s)) refl refl refl refl refl (λ _ h. h) refl)
]

create-Writing : {uuid : ℕ → ℕ} {calm : Bool} → (c : Config) → Writing uuid calm (create_executor c)
create-Writing c s = elim (create-cases c s) [
  | inl (x, e, numbered) ↦ rw e (builds x (omega arith) refl refl refl refl refl (λ _ h. h) refl)
  | inr (x, e) ↦ rw e (quiet (omega arith) refl refl refl refl refl (λ _ h. h) refl)
]

pub take-Writing :
    {uuid : ℕ → ℕ} {calm : Bool} → (c : Config) → Writing uuid calm (take_or_create_available c)
take-Writing c s = elim (take-cases c s) [
  | inl (e, rest, idle, same) ↦
      rw same (quiet (omega arith) refl refl refl refl refl (λ _ h. h) refl)
  | inr (inl (e, empty, room, numbered, same)) ↦
      rw same (builds e (omega arith) refl refl refl refl refl (λ _ h. h) refl)
  | inr (inr (inl (x, empty, room, same))) ↦
      rw same (quiet (omega arith) refl refl refl refl refl (λ _ h. h) refl)
  | inr (inr (inr (empty, full, same))) ↦ rw same done
]

grow-Writing :
    {uuid : ℕ → ℕ} {calm : Bool}
    → (c : Config) (rounds target : ℕ) → Writing uuid calm (grow c rounds target)
unfolding grow
grow-Writing c zero target s = done
grow-Writing c (suc rounds) target s = elim (grow-cases c rounds target s) [
  | inl (e, room, numbered, same) ↦ rw same (
      Writes-trans
        (builds {s = s} {t = grown s e} e (omega arith) refl refl refl refl refl (λ _ h. h) refl)
        (grow-Writing c rounds target (grown s e)))
  | inr (inl (x, room, same)) ↦
      rw same (quiet (omega arith) refl refl refl refl refl (λ _ h. h) refl)
  | inr (inr (reached, same)) ↦ rw same done
]

pub ensure-Writing :
    {uuid : ℕ → ℕ} {calm : Bool} → (c : Config) → Writing uuid calm (ensure_minimum c)
unfolding ensure_minimum
ensure-Writing c =
    Writing-bind (desired_executor_count c) (λ target s. grow c (target - current_count s) target s)
      (desired-Writing c) (λ target s. grow-Writing c (target - current_count s) target s)

shrink-Writing :
    {uuid : ℕ → ℕ} {calm : Bool}
    → (rounds target : ℕ) → Writing {A = Unit {0}} uuid calm (shrink rounds target)
unfolding shrink
shrink-Writing zero target s = done
shrink-Writing (suc rounds) target s = elim (shrink-cases rounds target s) [
  | inl (x, xs, idle, above, e) ↦
      let (left, last) = pop_right x xs in
      let t : State = record s { available = left } in
      let w : Writes _ _ s (shrunk s x xs) =
        more (quiet {s = s} {t = t} (omega arith) refl refl refl refl refl (λ _ h. h) refl)
          (shuts last refl) in
      rw e (Writes-trans w (shrink-Writing rounds target (shrunk s x xs)))
  | inr (stopped, e) ↦ rw e done
]

pub shrink_idle-Writing :
    {uuid : ℕ → ℕ} {calm : Bool} → (c : Config) → Writing uuid calm (shrink_idle_if_above_target c)
unfolding shrink_idle_if_above_target
shrink_idle-Writing c =
    Writing-bind (desired_executor_count c) (λ target s. shrink (length s.available) target s)
      (desired-Writing c) (λ target s. shrink-Writing (length s.available) target s)

pub shutdown-Writing :
    {uuid : ℕ → ℕ} {calm : Bool} → (e : Executor) → Writing uuid calm (shutdown_executor e)
unfolding shutdown_executor
shutdown-Writing e s = one-Write (shuts e refl)

notify-Writing :
    {uuid : ℕ → ℕ} {calm : Bool}
    → (event loop : Option ℕ) (closed : Bool) → Writing uuid calm (notify event loop closed)
notify-Writing none loop closed s = done
notify-Writing (some event) none closed s = done
notify-Writing (some event) (some loop) true s = done
notify-Writing (some event) (some loop) false s = one-Write (calls_soon (set_event event) refl)

pub wake_waiters-Writing : {uuid : ℕ → ℕ} {calm : Bool} → Writing uuid calm wake_waiters
unfolding wake_waiters
wake_waiters-Writing s = notify-Writing s.availability_event s.loop s.loop_closed s

pub wake_checker-Writing : {uuid : ℕ → ℕ} {calm : Bool} → Writing uuid calm wake_checker
unfolding wake_checker
wake_checker-Writing s = notify-Writing s.scale_change_event s.loop s.loop_closed s

on_loop-Writing :
    {uuid : ℕ → ℕ} {calm : Bool}
    → (l : Option ℕ) (closed : Bool) (e : Executor) → Writing uuid calm (on_loop l closed e)
on_loop-Writing (some l) false e s = one-Write (calls_soon (shut_down e) refl)
on_loop-Writing (some l) true e s = one-Write (closes e refl)
on_loop-Writing none closed e s = one-Write (closes e refl)

callback-Writing :
    {uuid : ℕ → ℕ} {calm : Bool}
    → (e : Executor) → Writing uuid calm (shutdown_executor_from_callback e)
unfolding shutdown_executor_from_callback
callback-Writing e s = on_loop-Writing s.loop s.loop_closed e s

pub drop-Writing : {uuid : ℕ → ℕ} {calm : Bool} → (k : ℕ) → Writing uuid calm (drop_record k)
drop-Writing k s = one-Write (removes k refl)

revoke-Writing : {uuid : ℕ → ℕ} {calm : Bool} → (k : ℕ) → Writing uuid calm (revoke k)
unfolding revoke
revoke-Writing k s = elim (Option-cases (find k s.leased)) [
  | inl e ↦ rw e done
  | inr (r, e) ↦ rw e (
      Writing-then (drop_record k) (shutdown_executor r.executor) (drop-Writing k)
        (shutdown-Writing r.executor) s)
]

revoke_all-Writing :
    {uuid : ℕ → ℕ} {calm : Bool} → (ks : List ℕ) → Writing uuid calm (revoke_all ks)
unfolding revoke_all
revoke_all-Writing [] s = done
revoke_all-Writing (k ∷ ks) s =
    Writing-then (revoke k) (revoke_all ks) (revoke-Writing k) (revoke_all-Writing ks) s

unless_empty-Writing :
    {uuid : ℕ → ℕ} {calm : Bool}
    → (c : Config) (ks : List ℕ) → Writing uuid calm (unless_empty ks (ensure_minimum c))
unless_empty-Writing c [] s = done
unless_empty-Writing c (k ∷ ks) s = ensure-Writing c s

pub revoke_expired-Writing :
    {uuid : ℕ → ℕ} {calm : Bool} → (c : Config) → Writing uuid calm (revoke_expired_leases c)
unfolding revoke_expired_leases
revoke_expired-Writing c =
    Writing-bind (monotonic c)
      (λ now t.
        let ids = expired_ids now t.leased in
        (revoke_all ids >> unless_empty ids (ensure_minimum c)) t)
      (monotonic-Writing c)
      (λ now t.
        let ids = expired_ids now t.leased in
        Writing-then (revoke_all ids) (unless_empty ids (ensure_minimum c)) (revoke_all-Writing ids)
          (unless_empty-Writing c ids) t)

retire_current-Writing :
    {uuid : ℕ → ℕ} {calm : Bool}
    → (c : Config) (k : ℕ) (r : LeaseRecord) → Writing uuid calm (retire_current c k r)
retire_current-Writing c k r =
    let r' = record r { release_requested = true; pending_futures = []; broken = true } in
    let note : Action (Unit {0}) = modify λ s. record s { retired = s.retired ++ r' ∷ [] } in
    let give : Action (Option Executor) = pure (some r.executor) in
    Writing-then (drop_record k) (note >> (ensure_minimum c >> give)) (drop-Writing k) (
      Writing-then note (ensure_minimum c >> give)
        (λ s. quiet (omega arith) refl refl refl refl refl (λ _ h. h) refl)
        (Writing-then (ensure_minimum c) give (ensure-Writing c) (λ s. done)))

pub retire-Writing :
    {uuid : ℕ → ℕ} {calm : Bool}
    → (c : Config) (k : ℕ) (r : LeaseRecord) → Writing uuid calm (retire_broken_record c k r)
unfolding retire_broken_record
retire-Writing c k r s = elim (Bool-cases (is_current (find k s.leased) r)) [
  | inl e ↦ rw e (retire_current-Writing c k r s)
  | inr e ↦ rw e done
]

should_keep-Writing :
    {uuid : ℕ → ℕ} {calm : Bool}
    → (c : Config) (r : LeaseRecord) → Writing uuid calm (should_keep c r)
should_keep-Writing c r s = elim (should_keep-cases c r s) [
  | inl (k, why, e) ↦
      rw e (quiet (rw e at (should_keep-reads c r s)) refl refl refl refl refl (λ _ h. h) refl)
  | inr (inl (k, why, e)) ↦
      rw e (quiet (rw e at (should_keep-reads c r s)) refl refl refl refl refl (λ _ h. h) refl)
  | inr (inr (x, k, e)) ↦
      rw e (quiet (rw e at (should_keep-reads c r s)) refl refl refl refl refl (λ _ h. h) refl)
]

append_if-Writing :
    {uuid : ℕ → ℕ} {calm : Bool} → (b : Bool) (e : Executor) → Writing uuid calm (append_if b e)
append_if-Writing true e s = quiet (omega arith) refl refl refl refl refl (λ _ h. h) refl
append_if-Writing false e s = done

finalize_current-Writing :
    {uuid : ℕ → ℕ} {calm : Bool}
    → (c : Config) (k : ℕ) (r : LeaseRecord) → Writing uuid calm (finalize_current c k r)
finalize_current-Writing c k r =
    let finish : Bool → Action (Option Executor × Bool) =
      λ keep. pure (if keep then none else some r.executor, true) in
    let resize : Bool → Action (Option Executor × Bool) =
      λ keep. append_if keep r.executor >> (ensure_minimum c >> finish keep) in
    Writing-then (drop_record k) (should_keep c r >>= resize) (drop-Writing k) (
      Writing-bind (should_keep c r) resize (should_keep-Writing c r) (λ keep.
        Writing-then (append_if keep r.executor) (ensure_minimum c >> finish keep)
          (append_if-Writing keep r.executor)
          (Writing-then (ensure_minimum c) (finish keep) (ensure-Writing c) (λ s. done))))

pub finalize-Writing :
    {uuid : ℕ → ℕ} {calm : Bool}
    → (c : Config) (k : ℕ) (r : LeaseRecord) → Writing uuid calm (finalize_released_record c k r)
unfolding finalize_released_record
finalize-Writing c k r s =
    elim (Bool-cases
      (is_current (find k s.leased) r && r.release_requested && is_empty r.pending_futures)) [
        | inl e ↦ rw e (finalize_current-Writing c k r s)
        | inr e ↦ rw e done
      ]

pub shutdown_some-Writing :
    {uuid : ℕ → ℕ} {calm : Bool} → (o : Option Executor) → Writing uuid calm (shutdown_some o)
shutdown_some-Writing none s = done
shutdown_some-Writing (some e) s = shutdown-Writing e s

pub callback_shutdown-Writing :
    {uuid : ℕ → ℕ} {calm : Bool} → (o : Option Executor) → Writing uuid calm (callback_shutdown o)
callback_shutdown-Writing none s = done
callback_shutdown-Writing (some e) s = callback-Writing e s

pub wake_if-Writing : {uuid : ℕ → ℕ} {calm : Bool} → (b : Bool) → Writing uuid calm (wake_if b)
wake_if-Writing false s = done
wake_if-Writing true s =
    Writing-then wake_waiters wake_checker wake_waiters-Writing wake_checker-Writing s
