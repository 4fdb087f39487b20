-- ===== src/Orders/Ownership.antt =====
-- Whose orders are shown.
use food_order_system.Base.{
  ℕ, Option, none, some, ◌≡◌, ◌≢◌, ◌↔◌, inl, inr, arith, nat_beq_iff, Option-cases,
}
use food_order_system.Orders.{Row, OrderStatus, status_of, fetch_order_status}

module _ (fetchone : ℕ → Option Row) (order_id user_id : ℕ) where
  owner-of_status :
      (st : OrderStatus)
      → fetch_order_status fetchone order_id user_id ≡ some st
      → (row : Row) × (fetchone order_id ≡ some row)
        × (row.user_id ≡ user_id)
        × (status_of row ≡ st)
  unfolding fetch_order_status
  owner-of_status st h = elim (Option-cases (fetchone order_id)) [
    | inl e ↦ absurd (ground arith)
    | inr (row, e) ↦ (row, e, ground (arith, nat_beq_iff row.user_id user_id), ground arith)
  ]

  -- A status is shown exactly when the order is there and belongs to the user who asks, and it is
  -- then that of the order; and the answer for another user's order is that for a missing one.
  pub fetch_order_status_iff :
      ((st : OrderStatus)
        → (fetch_order_status fetchone order_id user_id ≡ some st) ↔ (
            (row : Row) × (fetchone order_id ≡ some row)
            × (row.user_id ≡ user_id)
            × (status_of row ≡ st)))
      × ((row : Row)
          → fetchone order_id ≡ some row
          → row.user_id ≢ user_id
          → fetch_order_status fetchone order_id user_id
            ≡ fetch_order_status (λ n. none) order_id user_id)
  unfolding fetch_order_status
  fetch_order_status_iff = (
    λ st. (
      owner-of_status st,
      λ (row, e, own, same). ground (arith, nat_beq_iff row.user_id user_id),
    ),
    λ row e foreign. ground (arith, nat_beq_iff row.user_id user_id),
  )
