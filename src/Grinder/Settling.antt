-- ===== src/Grinder/Settling.antt =====
-- What settling a batch does to one future, for the loop of WorkGrinder
-- (src/leasepool/grinder.py).
use leasepool.Base.{
  suc, ℕ, Bool, true, false, ◌||◌, Option, none, some, List, [], ◌∷◌, ◌++◌, ◌≡◌, refl, ◌==◌, arith,
  inl, inr, Bool-cases, Option-cases,
}
use leasepool.Base.Exec.{Exn, Result, ok, raised}
use leasepool.Grinder.State.{
  FutureState, is_done, is_cancelled, has_exception, WorkItem, GrinderState, settle_if_open,
  settle_batch,
}
use leasepool.Grinder.Batch.{live_items, submit_items, settle_results, refuse, outcome}
use leasepool.Grinder.Queue.{without_future}

-- Whether future `g` is that of an item.
abbrev pub queued : ℕ → List WorkItem → Bool
queued g [] = false
queued g (x ∷ xs) = x.result_future == g || queued g xs

-- Settling leaves everything but the futures and their callbacks.
pub record Frame (s t : GrinderState) : Type 0 where
  pub pending : t.pending ≡ s.pending
  pub removals : t.removals ≡ s.removals
  pub future_count : t.future_count ≡ s.future_count
  pub phase : t.phase ≡ s.phase
  pub started : t.started ≡ s.started
  pub stopping : t.stopping ≡ s.stopping
  pub cancel_asked : t.cancel_asked ≡ s.cancel_asked

pub queued-append :
    (g : ℕ) (xs ys : List WorkItem) → queued g (xs ++ ys) ≡ (queued g xs || queued g ys)
queued-append g [] ys = refl
queued-append g (x ∷ xs) ys = ground (arith, queued-append g xs ys)

module _ (g : ℕ) (v : FutureState) where
  pub settle_if_open-done :
      (f : ℕ) (s : GrinderState)
      → is_done v ≡ true
      → is_done ((settle_if_open f v s).futures g) ≡ (is_done (s.futures g) || f == g)
  unfolding settle_if_open
  settle_if_open-done f s h = ground arith

  pub settle_batch-done :
      (xs : List WorkItem) (s : GrinderState)
      → is_done v ≡ true
      → is_done ((settle_batch v xs s).futures g) ≡ (is_done (s.futures g) || queued g xs)
  unfolding settle_batch
  settle_batch-done [] s h = ground arith
  settle_batch-done (x ∷ xs) s h = ground (
    arith,
    settle_batch-done xs (settle_if_open x.result_future v s) h,
    settle_if_open-done x.result_future s h,
  )

pub settle_if_open-Frame :
    (f : ℕ) (v : FutureState) (s : GrinderState) → Frame s (settle_if_open f v s)
unfolding settle_if_open
settle_if_open-Frame f v s = record {
  pending = ground arith;
  removals = ground arith;
  future_count = ground arith;
  phase = ground arith;
  started = ground arith;
  stopping = ground arith;
  cancel_asked = ground arith;
}

pub Frame-trans : {s t u : GrinderState} → Frame s t → Frame t u → Frame s u
Frame-trans a b = record {
  pending = cc (a.pending, b.pending);
  removals = cc (a.removals, b.removals);
  future_count = cc (a.future_count, b.future_count);
  phase = cc (a.phase, b.phase);
  started = cc (a.started, b.started);
  stopping = cc (a.stopping, b.stopping);
  cancel_asked = cc (a.cancel_asked, b.cancel_asked);
}

pub Frame-same : {s : GrinderState} → Frame s s
Frame-same = record {
  pending = refl;
  removals = refl;
  future_count = refl;
  phase = refl;
  started = refl;
  stopping = refl;
  cancel_asked = refl;
}

pub settle_batch-Frame :
    (v : FutureState) (xs : List WorkItem) (s : GrinderState) → Frame s (settle_batch v xs s)
unfolding settle_batch
settle_batch-Frame v [] s = Frame-same
settle_batch-Frame v (x ∷ xs) s =
    Frame-trans (settle_if_open-Frame x.result_future v s)
      (settle_batch-Frame v xs (settle_if_open x.result_future v s))

outcome-done : (r : Result ℕ) → is_done (outcome r) ≡ true
outcome-done (ok a) = refl
outcome-done (raised e) = refl

pub settle_results-Frame :
    (xs : List WorkItem) (rs : List (Result ℕ)) (s : GrinderState)
    → Frame s (settle_results xs rs s).1
unfolding settle_results
settle_results-Frame [] [] s = Frame-same
settle_results-Frame [] (r ∷ rs) s = Frame-same
settle_results-Frame (x ∷ xs) [] s = Frame-same
settle_results-Frame (x ∷ xs) (r ∷ rs) s =
    Frame-trans (settle_if_open-Frame x.result_future (outcome r) s)
      (settle_results-Frame xs rs (settle_if_open x.result_future (outcome r) s))

-- Results settle no future but those of the items.
pub settle_results-only :
    (g : ℕ) (xs : List WorkItem) (rs : List (Result ℕ)) (s : GrinderState)
    → is_done ((settle_results xs rs s).1.futures g) ≡ true
    → (is_done (s.futures g) || queued g xs) ≡ true
unfolding settle_results
settle_results-only g [] [] s h = ground arith
settle_results-only g [] (r ∷ rs) s h = ground arith
settle_results-only g (x ∷ xs) [] s h = ground arith
settle_results-only g (x ∷ xs) (r ∷ rs) s h = ground (
  arith,
  settle_results-only g xs rs (settle_if_open x.result_future (outcome r) s) h,
  settle_if_open-done g (outcome r) x.result_future s (outcome-done r),
)

pub settle_results-keeps :
    (g : ℕ) (xs : List WorkItem) (rs : List (Result ℕ)) (s : GrinderState)
    → is_done (s.futures g) ≡ true
    → is_done ((settle_results xs rs s).1.futures g) ≡ true
unfolding settle_results
settle_results-keeps g [] [] s h = h
settle_results-keeps g [] (r ∷ rs) s h = h
settle_results-keeps g (x ∷ xs) [] s h = h
settle_results-keeps g (x ∷ xs) (r ∷ rs) s h =
    settle_results-keeps g xs rs (settle_if_open x.result_future (outcome r) s)
      (ground (arith, settle_if_open-done g (outcome r) x.result_future s (outcome-done r)))

-- With a result for each item, all are settled.
pub settle_results-done :
    (g : ℕ) (xs : List WorkItem) (rs : List (Result ℕ)) (s : GrinderState)
    → (settle_results xs rs s).0 ≡ none
    → (is_done (s.futures g) || queued g xs) ≡ true
    → is_done ((settle_results xs rs s).1.futures g) ≡ true
unfolding settle_results
settle_results-done g [] [] s e h = ground arith
settle_results-done g [] (r ∷ rs) s e h = ground arith
settle_results-done g (x ∷ xs) [] s e h = ground arith
settle_results-done g (x ∷ xs) (r ∷ rs) s e h =
    settle_results-done g xs rs (settle_if_open x.result_future (outcome r) s) e
      (ground (arith, settle_if_open-done g (outcome r) x.result_future s (outcome-done r)))

pub cancelled-done : (v : FutureState) → is_cancelled v ≡ true → is_done v ≡ true
cancelled-done v h = ground arith

-- Only cancelled items are not live.
pub live_items-queued :
    (g : ℕ) (futures : ℕ → FutureState) (xs : List WorkItem)
    → ((is_done (futures g) || queued g (live_items futures xs))
        ≡ (is_done (futures g) || queued g xs))
      × (queued g (live_items futures xs) ≡ true → queued g xs ≡ true)
unfolding live_items
live_items-queued g futures [] = (refl, λ h. h)
live_items-queued g futures (x ∷ xs) =
    let (same, kept) = live_items-queued g futures xs in
    elim (Bool-cases (is_cancelled (futures x.result_future))) [
      | inl gone ↦ elim (Bool-cases (x.result_future == g)) [
        | inl here ↦ (ground (arith, cancelled-done (futures x.result_future) gone), ground arith)
        | inr other ↦ (ground arith, ground arith)
      ]
      | inr live ↦ (ground arith, ground arith)
    ]

-- A batch is split into what was submitted and what was not.
pub submit_items-queued :
    (g : ℕ) (refusal : ℕ → Option Exn) (xs : List WorkItem)
    → (queued g (submit_items refusal xs).0 || queued g (submit_items refusal xs).1) ≡ queued g xs
unfolding submit_items
submit_items-queued g refusal [] = refl
submit_items-queued g refusal (x ∷ xs) = elim (Option-cases (refusal 0)) [
  | inl e ↦ ground (arith, submit_items-queued g (λ k. refusal (suc k)) xs)
  | inr (y, e) ↦ ground arith
]

-- Without a refusal nothing is left.
pub submit_items-all :
    (refusal : ℕ → Option Exn) (xs : List WorkItem)
    → (submit_items refusal xs).2 ≡ none
    → (submit_items refusal xs).1 ≡ []
unfolding submit_items
submit_items-all refusal [] h = refl
submit_items-all refusal (x ∷ xs) h = elim (Option-cases (refusal 0)) [
  | inl e ↦ ground (arith, submit_items-all (λ k. refusal (suc k)) xs (ground arith))
  | inr (y, e) ↦ ground arith
]

pub without_future-queued :
    (g f : ℕ) (xs : List WorkItem)
    → (queued g (without_future f xs) ≡ true → queued g xs ≡ true)
      × (queued g xs ≡ true → (f == g) ≡ false → queued g (without_future f xs) ≡ true)
unfolding without_future
without_future-queued g f [] = (λ h. h, λ h _. h)
without_future-queued g f (x ∷ xs) =
    let (back, kept) = without_future-queued g f xs in (λ h. ground arith, λ h other. ground arith)

pub refuse-Frame :
    (left : List WorkItem) (e : Option Exn) (s : GrinderState) → Frame s (refuse left e s)
refuse-Frame left none s = Frame-same
refuse-Frame left (some e) s = settle_batch-Frame (has_exception e) left s
