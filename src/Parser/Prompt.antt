-- ===== src/Parser/Prompt.antt =====
-- `_build_system_prompt`: the menu as the model sees it, by restaurant.
use food_order_system.Base.{
  ℕ, zero, suc, String, nat_eq, Bool, false, not, Option, none, some, List, [], ◌∷◌, ◌++◌,
  if◌then◌else◌, ◌==◌, is_blank, leb, join,
}
use food_order_system.Base.Dict
use food_order_system.Base.Dict.{Dict}
use food_order_system.Base.Sort.{sort}
use food_order_system.Schemas.{FoodMeta}

abbrev pub Group : Type 0
Group = String × List FoodMeta

-- `restaurant_hint_id and f.restaurant_id != restaurant_hint_id`
unfoldable pub skipped : Option ℕ → FoodMeta → Bool
skipped none f = false
skipped (some zero) f = false
skipped (some (suc n)) f = not (f.restaurant_id == suc n)

-- The body of the loop over the menu.
unfoldable pub add_food : Option ℕ → Dict ℕ Group → FoodMeta → Dict ℕ Group
add_food hint d f = if skipped hint f then d else elim (Dict.get d f.restaurant_id) [
  | none ↦ Dict.put d f.restaurant_id (f.restaurant_name, f ∷ [])
  | some (name, foods) ↦ Dict.put d f.restaurant_id (name, foods ++ f ∷ [])
]

unfoldable pub group_foods : Option ℕ → Dict ℕ Group → List FoodMeta → Dict ℕ Group
group_foods hint d [] = d
group_foods hint d (f ∷ fs) = group_foods hint (add_food hint d f) fs

unfoldable pub rules : List String
rules =
    "You are a food ordering assistant. The user will describe what they want to order in natural language (Chinese or English). Your job is to parse their request into a structured order draft by calling the `create_order_draft` tool."
    ∷ "" ∷ "Rules:" ∷ "- Only use food items that appear in the menu below."
    ∷ "- Match food names exactly as listed (the names are in English)."
    ∷ "- If the user mentions a dish not on the menu, do NOT call the tool — reply with a text explanation listing what you could not find."
    ∷ "- Default delivery_option to 'Standard' unless the user specifies otherwise."
    ∷ "- If the request is too ambiguous to parse, reply with text asking for clarification." ∷ ""
    ∷ "Available menu:" ∷ []

module _ (money show_id : ℕ → String) where
  unfoldable pub food_line : FoodMeta → String
  food_line f =
      let pref =
        if is_blank f.preferences then "" else join "" (" [options: " ∷ f.preferences ∷ "]" ∷ []) in
      join "" ("- " ∷ f.food_name ∷ ": $" ∷ money f.unit_price ∷ " — " ∷ f.description ∷ pref ∷ [])

  unfoldable pub food_lines : List FoodMeta → List String
  unfolding food_line
  food_lines [] = []
  food_lines (f ∷ fs) = food_line f ∷ food_lines fs

  unfoldable pub menu_lines : Dict ℕ Group → List String
  unfolding food_lines
  menu_lines [] = []
  menu_lines ((rid, (name, foods)) ∷ d) =
      join "" ("\n## " ∷ name ∷ " (id=" ∷ show_id rid ∷ ")" ∷ [])
      ∷ (food_lines foods ++ menu_lines d)

  -- The groups are sorted by the restaurant's identifier, which no two share.
  unfoldable pub system_prompt : List FoodMeta → Option ℕ → String
  unfolding rules menu_lines group_foods add_food skipped
  system_prompt menu hint =
      join "\n" (rules ++ menu_lines (sort (λ x y. leb (x.0) (y.0)) (group_foods hint [] menu)))
