-- ===== src/Grinder/Effects.antt =====
-- The states that the calls of WorkGrinder (src/leasepool/grinder.py) lead to.
use leasepool.Base.{
  ℕ, ◌+◌, String, Bool, true, false, not, ◌&&◌, ◌||◌, ◌≡◌, Option, none, some, [], ◌∷◌, ◌++◌, arith,
  if◌then◌else◌, ◌⊎◌, inl, inr, Bool-cases,
}
use leasepool.Base.Exec.{Exn, runtime_error, ok, raised, Result-cases}
use leasepool.Grinder.State.{unsettled, WorkItem, absent, waiting, GrinderState, assign}
use leasepool.Grinder.Queue.{enqueue, require_grinder_loop, owner}
use leasepool.Grinder.Lifecycle.{
  start_grinder, cancel_pending, stop_grinder_begin, stop_grinder_finish, has_task, was_killed,
}

abbrev pub new_item : ℕ → ℕ → Option String → ℕ → GrinderState → WorkItem
new_item w call o now s = record {
  work_id = w;
  call = call;
  result_future = s.future_count;
  submitted_at = now;
  owner = o;
}

abbrev pub enqueued : ℕ → ℕ → Option String → ℕ → GrinderState → GrinderState
enqueued w call o now s = record s {
  futures = assign s.future_count unsettled s.futures;
  future_count = s.future_count + 1;
  pending = s.pending ++ new_item w call o now s ∷ [];
}

module _ (s : GrinderState) where
  pub enqueue-cases :
      (running : Option ℕ) (w call : ℕ) (o : Option String) (now : ℕ)
      → ((e : Exn) × (enqueue running w call o now s ≡ (raised e, s)))
        ⊎ ((enqueue running w call o now s ≡ (ok s.future_count, enqueued w call o now s))
            × (s.started ≡ true)
            × (s.stopping ≡ false))
  unfolding enqueue require_grinder_loop
  enqueue-cases running w call o now = elim (Result-cases (owner s.loop s.started running)) [
    | inr (x, refused) ↦ inl (x, ground arith)
    | inl (l, e) ↦ elim (Bool-cases s.stopping) [
      | inl stopping ↦ inl (runtime_error, ground arith)
      | inr open_ ↦ inr (ground arith, ground arith, open_)
    ]
  ]

  pub stop_begin-cases :
      (running : Option ℕ) (cancelling : Bool)
      → ((stop_grinder_begin running cancelling s).1 ≡ s)
        ⊎ ((stop_grinder_begin running cancelling s).1
            ≡ let t : GrinderState = record s { stopping = true } in
              let u = if cancelling then cancel_pending t else t in
              record u { cancel_asked = u.cancel_asked || cancelling && has_task u.phase })
  unfolding stop_grinder_begin require_grinder_loop
  stop_begin-cases running cancelling = elim (Bool-cases s.started) [
    | inr e ↦ inl (ground arith)
    | inl e ↦ elim (Result-cases (owner s.loop s.started running)) [
      | inr (x, refused) ↦ inl (ground arith)
      | inl (l, fine) ↦ inr (ground arith)
    ]
  ]

  pub stop_finish-cases :
      (cancelling : Bool)
      → ((stop_grinder_finish cancelling s).1 ≡ record s { phase = absent; cancel_asked = false })
        ⊎ ((stop_grinder_finish cancelling s).1 ≡ record s {
          phase = absent;
          cancel_asked = false;
          started = false;
          stopping = false;
          loop = none;
        })
  unfolding stop_grinder_finish
  stop_finish-cases cancelling = elim (Bool-cases (was_killed s.phase && not cancelling)) [
    | inl e ↦ inl (ground arith)
    | inr e ↦ inr (ground arith)
  ]

  pub start-cases :
      (l : ℕ)
      → ((start_grinder l s).1 ≡ s)
        ⊎ ((s.started ≡ false)
            × ((start_grinder l s).1 ≡ record s {
              loop = some l;
              stopping = false;
              phase = waiting;
              cancel_asked = false;
              started = true;
            }))
  unfolding start_grinder
  start-cases l = elim (Bool-cases s.started) [
    | inl e ↦ inl (ground arith)
    | inr e ↦ inr (e, ground arith)
  ]
