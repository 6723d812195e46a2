-- ===== src/Manager/Alerting/Growth.antt =====
-- When _ensure_minimum_locked (src/leasepool/manager.py) does not raise.
use leasepool.Base.{ℕ, zero, suc, ◌-◌, refl, inl, inr, arith}
use leasepool.Manager.Config.{Config}
use leasepool.Manager.State.{current_count}
use leasepool.Manager.Sizing.{desired_executor_count}
use leasepool.Manager.Pool.{create_executor, grow, ensure_minimum}
use leasepool.Manager.Ledger.Pool.{create-cases, grown}
use leasepool.Manager.Alerting.{Growing, Gives, Any, Gives-bind}

grow-Gives :
    (c : Config)
    → Gives Any (create_executor c)
    → (rounds target : ℕ) → Gives Any (grow c rounds target)
unfolding grow
grow-Gives c made zero target s = (tt, refl, tt)
grow-Gives c made (suc rounds) target s = elim (create-cases c s) [
  | inr (x, failed) ↦ let (e, fine, _) = made s in absurd (ground (arith, fine, failed))
  | inl (e, makes, numbered) ↦
      let (_, fine, _) = grow-Gives c made rounds target (grown s e) in
      (tt, ground (arith, makes, fine), tt)
]

-- It is enough that the target can be told, and that executors can be made.
pub sizes-Growing :
    (c : Config) → Gives Any (desired_executor_count c) → Gives Any (create_executor c) → Growing c
unfolding ensure_minimum
sizes-Growing c told made s =
    let (_, fine, _) =
      Gives-bind Any Any (desired_executor_count c)
        (λ target t. grow c (target - current_count t) target t) told
        (λ target _ t. grow-Gives c made (target - current_count t) target t) s in
    fine
