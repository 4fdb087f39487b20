-- ===== src/Parser/Resolve.antt =====
-- Which food a name resolves to.
use food_order_system.Base.{
  ℕ, String, string_eq, ◌||◌, Option, none, some, List, ◌≡◌, ◌⊎◌, inl, inr, arith, ◌==◌, ==_iff,
  strip, has_part, select, first_sound, first_complete, In, In-select, In-select_intro,
  is_empty_of_In, ap, ◌∙◌,
}
use food_order_system.Base.Json.{Json}
use food_order_system.Schemas.{FoodMeta}
use food_order_system.Parser.{candidates, or_else, resolve_food}

module _ (lower : String → String) (to_quantity : Json → Option ℕ) (money : ℕ → String)
    (show_id : ℕ → String) where
  In-candidates :
      (menu : List FoodMeta) (restaurant : String) (f : FoodMeta)
      → In f (candidates lower to_quantity money show_id menu restaurant)
      → In f menu
  unfolding candidates
  In-candidates menu restaurant f m =
      ground (arith, In-select (λ g. lower g.restaurant_name == lower restaurant) menu f)

  or_else-cases :
      (x y : Option FoodMeta) (f : FoodMeta)
      → or_else lower to_quantity money show_id x y ≡ some f
      → (x ≡ some f) ⊎ (y ≡ some f)
  unfolding or_else
  or_else-cases none y f h = inr h
  or_else-cases (some g) y f h = inl h

  resolve_food-candidates :
      (name : String) (menu : List FoodMeta) (restaurant : String) (f : FoodMeta)
      → resolve_food lower to_quantity money show_id name menu restaurant ≡ some f
      → In f (candidates lower to_quantity money show_id menu restaurant)
  unfolding resolve_food
  resolve_food-candidates name menu restaurant f h =
      let foods = candidates lower to_quantity money show_id menu restaurant in
      let key = strip (lower name) in
      elim (or_else-cases _ _ f h) [
        | inl e ↦ (first_sound (λ g. g.food_name == name) foods f e).0
        | inr rest ↦ elim (or_else-cases _ _ f rest) [
          | inl e ↦ (first_sound (λ g. lower g.food_name == key) foods f e).0
          | inr e ↦
              (first_sound
                (λ g. has_part key (lower g.food_name) || has_part (lower g.food_name) key) foods f
                e).0
        ]
      ]

  own_restaurant :
      (menu : List FoodMeta) (restaurant : String) (f g : FoodMeta)
      → In f (candidates lower to_quantity money show_id menu restaurant)
      → In g menu
      → lower g.restaurant_name ≡ lower restaurant
      → lower f.restaurant_name ≡ lower restaurant
  unfolding candidates
  own_restaurant menu restaurant f g m k e =
      let p = λ (x : FoodMeta). lower x.restaurant_name == lower restaurant in
      let there =
        In-select_intro p menu g k ((==_iff (lower g.restaurant_name) (lower restaurant)).1 e) in
      let full = is_empty_of_In (select p menu) g there in
      (==_iff (lower f.restaurant_name) (lower restaurant)).0 (ground (arith, In-select p menu f))

  exact_first :
      (name : String) (menu : List FoodMeta) (restaurant : String) (f g : FoodMeta)
      → resolve_food lower to_quantity money show_id name menu restaurant ≡ some f
      → In g (candidates lower to_quantity money show_id menu restaurant)
      → g.food_name ≡ name
      → f.food_name ≡ name
  unfolding resolve_food or_else
  exact_first name menu restaurant f g h m e =
      let foods = candidates lower to_quantity money show_id menu restaurant in
      let p = λ (x : FoodMeta). x.food_name == name in
      let (b, hit) = first_complete p foods g m ((==_iff g.food_name name).1 e) in
      let same : b ≡ f = ground arith in
      (==_iff f.food_name name).0 (first_sound p foods f (hit ∙ ap some same)).1

  -- A resolved food is on the menu; it is of the named restaurant if that has any food; and an
  -- exact match among these foods is never passed over for another name.
  pub resolve_food_lem :
      (name : String) (menu : List FoodMeta) (restaurant : String) (f : FoodMeta)
      → resolve_food lower to_quantity money show_id name menu restaurant ≡ some f
      → In f menu
        × ((g : FoodMeta)
            → In g menu
            → lower g.restaurant_name ≡ lower restaurant
            → lower f.restaurant_name ≡ lower restaurant)
        × ((g : FoodMeta)
            → In g (candidates lower to_quantity money show_id menu restaurant)
            → g.food_name ≡ name
            → f.food_name ≡ name)
  resolve_food_lem name menu restaurant f h =
      let m = resolve_food-candidates name menu restaurant f h in
      (
        In-candidates menu restaurant f m,
        λ g k e. own_restaurant menu restaurant f g m k e,
        λ g k e. exact_first name menu restaurant f g h k e,
      )
