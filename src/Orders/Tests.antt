-- ===== src/Orders/Tests.antt =====
-- One order of one user: the theorem on ai_service/src/fos_ai/db/order_repo.py at it.
use food_order_system.Base.{ℕ, Option, none, some, ◌≡◌, ◌≢◌, ◌↔◌, nat_beq, if◌then◌else◌}
use food_order_system.Orders.{Row, OrderStatus, status_of, fetch_order_status}
use food_order_system.Orders.Ownership.{fetch_order_status_iff}

abbrev row : Row
row = record {
  order_id = 7;
  user_id = 1;
  status = "delivered";
  total_amount = some 1200;
  rating = none;
  restaurant_name = some "Bay";
  created_at = none;
}

abbrev fetchone : ℕ → Option Row
fetchone n = if nat_beq n 7 then some row else none

fetch_order_status_example :
    ((st : OrderStatus)
      → (fetch_order_status fetchone 7 2 ≡ some st)
        ↔ ((r : Row) × (fetchone 7 ≡ some r) × (r.user_id ≡ 2) × (status_of r ≡ st)))
    × ((r : Row)
        → fetchone 7 ≡ some r
        → r.user_id ≢ 2
        → fetch_order_status fetchone 7 2 ≡ fetch_order_status (λ n. none) 7 2)
fetch_order_status_example = fetch_order_status_iff fetchone 7 2
