-- ===== src/Grinder/Turning.antt =====
-- When the loop of WorkGrinder (src/leasepool/grinder.py) takes a batch, and what a crash of the loop
-- leaves behind.
use leasepool.Base.{ℕ, ◌+◌, ◌-◌, ◌≡◌, ◌≤◌, ◌<◌, false, some, List, [], ◌∷◌, arith, length}
use leasepool.Grinder.State.{WorkItem, GrinderConfig, GrinderState}
use leasepool.Grinder.Batch.{batch, sleep, wait_for_next_batch, drain_pending, ready}

-- A wait is bounded by the oldest pending item: while the loop is not stopping and fewer items are
-- pending than the threshold, it waits until max_wait_seconds after that item was submitted, which is
-- still to come. As long as nothing changes, a turn at an earlier time waits for the rest, and a turn
-- at that time or later takes everything that is pending.
pub wait_for_next_batch-sleep :
    (c : GrinderConfig) (s : GrinderState) (now d later : ℕ) {x : WorkItem} {xs : List WorkItem}
    → s.pending ≡ x ∷ xs
    → (wait_for_next_batch c now s).0 ≡ sleep (some d)
    → let due = c.max_wait_seconds + x.submitted_at in
      (now < due)
      × (now + d ≡ due)
      × (length s.pending < c.batch_size_threshold)
      × (s.stopping ≡ false)
      × (later < due → wait_for_next_batch c later s ≡ (sleep (some (due - later)), s))
      × (due ≤ later → wait_for_next_batch c later s ≡ (batch s.pending, record s { pending = [] }))
unfolding wait_for_next_batch drain_pending
wait_for_next_batch-sleep c s now d later {x} {xs} oldest h =
    let due = c.max_wait_seconds + x.submitted_at in
    let late : ready c now x s ≡ false = ground (arith, h, oldest) in
    let soon : now < due = ground (arith, late) in
    let few : length s.pending < c.batch_size_threshold = ground (arith, late) in
    let running : s.stopping ≡ false = ground (arith, late) in
    (
      soon,
      ground (arith, h, oldest, late, soon),
      few,
      running,
      λ early. ground (arith, oldest, running, few),
      λ over. ground (arith, oldest),
    )
