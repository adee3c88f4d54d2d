-- ===== src/Claiming/Order.antt =====
-- The claim order is total and transitive, so that a sorted statement is an ordered queue.
use projectree.Base.{ℕ, arith}
use projectree.Base.Sorting.{IsOrder}
use projectree.Claiming.{by_availability}

pub by_availability-IsOrder :
    {Row : Type 0} (available_at created_at : Row → ℕ)
    → IsOrder (by_availability available_at created_at)
by_availability-IsOrder available_at created_at = record {
  total = λ a b h. ground arith;
  trans = λ a b c h k. ground arith;
}
