-- ===== src/Grinder/Results.antt =====
-- Each call of a batch of WorkGrinder (src/leasepool/grinder.py) gets its own result.
use leasepool.Base.{
  ℕ, false, ◌≡◌, refl, Option, none, some, List, [], ◌∷◌, length, arith, ◌==◌, ◌∙◌,
}
use leasepool.Base.Exec.{Exn, Result}
use leasepool.Grinder.State.{FutureState, unsettled, WorkItem, GrinderState, settle_if_open}
use leasepool.Grinder.Batch.{settle_results, outcome, batch_gathered, after_batch, gathered_of}
use leasepool.Grinder.Settling.{queued}

-- The futures of the items are unsettled and different.
abbrev pub Open : (ℕ → FutureState) → List WorkItem → Type 0
Open futures [] = Unit
Open futures (x ∷ xs) =
    (futures x.result_future ≡ unsettled) × (queued x.result_future xs ≡ false) × Open futures xs

abbrev pub futures_of : (ℕ → FutureState) → List WorkItem → List FutureState
futures_of futures [] = []
futures_of futures (x ∷ xs) = futures x.result_future ∷ futures_of futures xs

abbrev pub outcomes : List (Result ℕ) → List FutureState
outcomes [] = []
outcomes (r ∷ rs) = outcome r ∷ outcomes rs

settle_if_open-sets :
    (f : ℕ) (v : FutureState) (s : GrinderState)
    → s.futures f ≡ unsettled
    → (settle_if_open f v s).futures f ≡ v
unfolding settle_if_open
settle_if_open-sets f v s h = ground arith

settle_if_open-other :
    (g f : ℕ) (v : FutureState) (s : GrinderState)
    → (f == g) ≡ false
    → (settle_if_open f v s).futures g ≡ s.futures g
unfolding settle_if_open
settle_if_open-other g f v s h = ground arith

settle_results-other :
    (g : ℕ) (xs : List WorkItem) (rs : List (Result ℕ)) (s : GrinderState)
    → queued g xs ≡ false
    → (settle_results xs rs s).1.futures g ≡ s.futures g
unfolding settle_results
settle_results-other g [] [] s h = refl
settle_results-other g [] (r ∷ rs) s h = refl
settle_results-other g (x ∷ xs) [] s h = refl
settle_results-other g (x ∷ xs) (r ∷ rs) s h = ground (
  arith,
  settle_results-other g xs rs (settle_if_open x.result_future (outcome r) s),
  settle_if_open-other g x.result_future (outcome r) s,
)

Open-other :
    (f : ℕ) (v : FutureState) (xs : List WorkItem) (s : GrinderState)
    → queued f xs ≡ false
    → Open s.futures xs
    → Open (settle_if_open f v s).futures xs
Open-other f v [] s h o = tt
Open-other f v (x ∷ xs) s h (a, b, o) = (
  settle_if_open-other x.result_future f v s (ground arith) ∙ a,
  b,
  Open-other f v xs s (ground arith) o,
)

gathered_of-futures :
    (live : List WorkItem) (submitted : List WorkItem) (r : Option Exn × GrinderState)
    → r.0 ≡ none
    → futures_of (gathered_of live none r).futures submitted ≡ futures_of r.1.futures submitted
unfolding after_batch
gathered_of-futures live submitted (none, t) h = refl
gathered_of-futures live submitted (some e, t) h = ground arith

pub settle_results-delivers :
    (xs : List WorkItem) (rs : List (Result ℕ)) (s : GrinderState)
    → Open s.futures xs
    → length xs ≡ length rs
    → ((settle_results xs rs s).0 ≡ none)
      × (futures_of (settle_results xs rs s).1.futures xs ≡ outcomes rs)
unfolding settle_results
settle_results-delivers [] [] s o e = (refl, refl)
settle_results-delivers [] (r ∷ rs) s o e = ground arith
settle_results-delivers (x ∷ xs) [] s o e = ground arith
settle_results-delivers (x ∷ xs) (r ∷ rs) s (a, b, o) e =
    let t = settle_if_open x.result_future (outcome r) s in
    let (fine, rest) =
      settle_results-delivers xs rs t (Open-other x.result_future (outcome r) xs s b o)
        (omega (arith, e)) in
    (
      fine,
      cc (
        rest,
        settle_results-other x.result_future xs rs t b,
        settle_if_open-sets x.result_future (outcome r) s a,
      ),
    )

-- When gather returns, and the release succeeds, each submitted call's future gets that call's own
-- result or exception, provided that the submitted calls have different futures, none of them
-- settled, and there is a result for each.
pub batch_gathered-delivers :
    (results : List (Result ℕ)) (live submitted : List WorkItem) (s : GrinderState)
    → Open s.futures submitted
    → length submitted ≡ length results
    → futures_of (batch_gathered results none live submitted s).futures submitted ≡ outcomes results
unfolding batch_gathered after_batch
batch_gathered-delivers results live submitted s o e =
    let (fine, each) = settle_results-delivers submitted results s o e in
    gathered_of-futures live submitted (settle_results submitted results s) fine ∙ each
