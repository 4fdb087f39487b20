-- ===== src/Orders.antt =====
-- ai_service/src/fos_ai/db/order_repo.py and menu_repo.py: what the code does with the rows that the
-- database answers. A column that may be NULL is an option; amounts are cents, ratings tenths.
pub mod Ownership
mod Tests
use food_order_system.Base.{
  ℕ, String, Option, none, some, List, [], ◌∷◌, map, not, if◌then◌else◌, nat_beq,
}
use food_order_system.Schemas.{FoodMeta}

-- A row of `_ORDER_STATUS_QUERY`.
pub record Row : Type 0 where
  pub order_id : ℕ
  pub user_id : ℕ
  pub status : String
  pub total_amount : Option ℕ
  pub rating : Option ℕ
  pub restaurant_name : Option String
  pub created_at : Option String

pub record OrderStatus : Type 0 where
  pub order_id : ℕ
  pub status : String
  pub total_amount : ℕ
  pub rating : Option ℕ
  pub restaurant_name : String
  pub created_at : String

-- `v or ""`, and `str(v) if v else ""`
unfoldable pub or_empty : Option String → String
or_empty none = ""
or_empty (some s) = s

unfoldable pub status_of : Row → OrderStatus
unfolding or_empty
status_of row = record {
  order_id = row.order_id;
  status = row.status;
  total_amount = elim row.total_amount [ none ↦ 0 | some a ↦ a ];
  rating = row.rating;
  restaurant_name = or_empty row.restaurant_name;
  created_at = or_empty row.created_at;
}

-- `fetchone` is the row for an identifier, if there is one.
unfoldable pub fetch_order_status : (ℕ → Option Row) → ℕ → ℕ → Option OrderStatus
unfolding status_of
fetch_order_status fetchone order_id user_id = elim (fetchone order_id) [
  | none ↦ none
  | some row ↦ if not (nat_beq row.user_id user_id) then none else some (status_of row)
]

-- A row of `_MENU_QUERY`.
pub record MenuRow : Type 0 where
  pub food_id : ℕ
  pub food_name : String
  pub unit_price : ℕ
  pub description : Option String
  pub preferences : Option String
  pub restaurant_id : ℕ
  pub restaurant_name : String

unfoldable pub food_of : MenuRow → FoodMeta
unfolding or_empty
food_of row = record {
  food_id = row.food_id;
  food_name = row.food_name;
  unit_price = row.unit_price;
  description = or_empty row.description;
  preferences = or_empty row.preferences;
  restaurant_id = row.restaurant_id;
  restaurant_name = row.restaurant_name;
}

unfoldable pub fetch_all_foods : List MenuRow → List FoodMeta
unfolding food_of
fetch_all_foods rows = map food_of rows
