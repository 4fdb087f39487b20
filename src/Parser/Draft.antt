-- ===== src/Parser/Draft.antt =====
-- What a draft holds.
use food_order_system.Base.{
  ℕ, suc, ◌+◌, ◌-◌, ◌*◌, ◌≤◌, String, string_eq, false, Option, none, some, List, [], ◌∷◌, ◌++◌,
  ◌≡◌, refl, inl, inr, arith, ap, join, is_empty, length, length-append, In, All, All-append,
  Option-cases,
}
use food_order_system.Base.Json.{Json, Items, nil, cons, obj, Fields}
use food_order_system.Parser.Prompt.{system_prompt}
use food_order_system.Parser.Schema.{order_draft_tool}
use food_order_system.Base.Outcome.{Outcome-cases, Outcome}
use food_order_system.Schemas.{FoodMeta, OrderDraftItem}
use food_order_system.Llm.{ToolReply, ToolDef, tool_call_result, text_only_result}
use food_order_system.Parser.{
  Parsed, ok, value_error, crashed, ◌>>=◌, ParseOrderResponse, Target, Resolved, text_field,
  quantity_field, item_for, resolve_named, resolve_one, resolve_items, id_or_zero, delivery_field,
  resolve_food, find_target, raw_items, respond, total_of, read_call, read_reply, parse_order,
}
use food_order_system.Parser.Resolve.{resolve_food_lem}

pub >>=-eq-ok :
    {A B : Type 0} (m : Parsed A) (f : A → Parsed B) (b : B)
    → (m >>= f) ≡ ok b
    → (a : A) × (m ≡ ok a) × (f a ≡ ok b)
>>=-eq-ok (ok a) f b h = (a, refl, h)
>>=-eq-ok (value_error e) f b h = absurd (ground arith)
>>=-eq-ok (crashed e) f b h = absurd (ground arith)

ok_inj : {A : Type 0} {a b : A} → ok a ≡ ok b → a ≡ b
ok_inj h = ground arith

nonempty : {A : Type 0} (xs : List A) → is_empty xs ≡ false → 1 ≤ length xs
nonempty [] h = absurd (ground arith)
nonempty (x ∷ xs) h = omega arith

unfoldable pub count_items : Items → ℕ
count_items nil = 0
count_items (cons x xs) = suc (count_items xs)

module _ (lower : String → String) (to_quantity : Json → Option ℕ) (money : ℕ → String)
    (show_id : ℕ → String) (positive : (j : Json) (n : ℕ) → to_quantity j ≡ some n → 1 ≤ n) where
  -- The item is a food of the menu, under its name and at its price, at least once.
  abbrev pub OnMenu : List FoodMeta → OrderDraftItem → Type 0
  OnMenu menu i =
      (f : FoodMeta) × In f menu
      × (i.item_food_id ≡ f.food_id)
      × (i.item_food_name ≡ f.food_name)
      × (i.item_unit_price ≡ f.unit_price)
      × (1 ≤ i.quantity)

  item_for-OnMenu :
      (menu : List FoodMeta) (f : FoodMeta) (q : Json) (i : OrderDraftItem)
      → In f menu
      → item_for lower to_quantity money show_id f q ≡ ok i
      → OnMenu menu i
  unfolding item_for
  item_for-OnMenu menu f q i m h = elim (Option-cases (to_quantity q)) [
    | inl e ↦ absurd (ground arith)
    | inr (n, e) ↦ (f, m, ground arith, ground arith, ground arith, ground (arith, positive q n e))
  ]

  abbrev Added : List FoodMeta → Resolved → Resolved → Type 0
  Added menu r r' =
      All (OnMenu menu) r'.items
      × (length r'.items + length r'.issues ≡ suc (length r.items + length r.issues))

  missing-issue :
      (menu : List FoodMeta) (restaurant name : String) (q : Json) (r r' : Resolved)
      → resolve_food lower to_quantity money show_id name menu restaurant ≡ none
      → resolve_named lower to_quantity money show_id menu restaurant name q r ≡ ok r'
      → (x : String) × (record r { issues = r.issues ++ x ∷ [] } ≡ r')
  unfolding resolve_named
  missing-issue menu restaurant name q r r' e h =
      (join "" ("Food '" ∷ name ∷ "' not found on " ∷ restaurant ∷ "'s menu" ∷ []), ground arith)

  resolve_named-adds :
      (menu : List FoodMeta) (restaurant name : String) (q : Json) (r r' : Resolved)
      → resolve_named lower to_quantity money show_id menu restaurant name q r ≡ ok r'
      → All (OnMenu menu) r.items
      → Added menu r r'
  unfolding resolve_named
  resolve_named-adds menu restaurant name q r r' h a =
      elim (Option-cases (resolve_food lower to_quantity money show_id name menu restaurant)) [
        | inl e ↦
            let (x, same) = missing-issue menu restaurant name q r r' e h in
            rw (← same) (a, omega (arith, length-append r.issues (x ∷ [])))
        | inr (f, e) ↦
            let (i, made, kept) =
              >>=-eq-ok (item_for lower to_quantity money show_id f q)
                (λ i. ok (record r { items = r.items ++ i ∷ [] })) r' (ground arith) in
            let on =
              item_for-OnMenu menu f q i
                (resolve_food_lem lower to_quantity money show_id name menu restaurant f e).0
                made in
            let same : record r { items = r.items ++ i ∷ [] } ≡ r' = ok_inj kept in
            rw (← same) (
              All-append (OnMenu menu) r.items (i ∷ []) a (on, tt),
              omega (arith, length-append r.items (i ∷ [])),
            )
      ]

  -- One turn of the loop adds one item from the menu or one issue.
  resolve_one-adds :
      (menu : List FoodMeta) (restaurant : String) (raw : Json) (r r' : Resolved)
      → resolve_one lower to_quantity money show_id menu restaurant raw r ≡ ok r'
      → All (OnMenu menu) r.items
      → Added menu r r'
  unfolding resolve_one
  resolve_one-adds menu restaurant (obj fs) r r' h a =
      let (name, named, rest) =
        >>=-eq-ok (text_field lower to_quantity money show_id fs "food_name" "")
          (λ name.
            resolve_named lower to_quantity money show_id menu restaurant name
              (quantity_field lower to_quantity money show_id fs) r)
          r' h in
      resolve_named-adds menu restaurant name (quantity_field lower to_quantity money show_id fs) r
        r' rest a
  resolve_one-adds menu restaurant raw r r' h a = absurd (ground arith)

  resolve_items-adds :
      (menu : List FoodMeta) (restaurant : String) (raws : Items) (r r' : Resolved)
      → resolve_items lower to_quantity money show_id menu restaurant raws r ≡ ok r'
      → All (OnMenu menu) r.items
      → All (OnMenu menu) r'.items
        × (length r'.items + length r'.issues
            ≡ count_items raws + (length r.items + length r.issues))
  unfolding resolve_items count_items
  resolve_items-adds menu restaurant nil r r' h a =
      let same : r ≡ r' = ground arith in rw (← same) (a, omega arith)
  resolve_items-adds menu restaurant (cons raw raws) r r' h a =
      let (r1, one, rest) =
        >>=-eq-ok (resolve_one lower to_quantity money show_id menu restaurant raw r)
          (λ x. resolve_items lower to_quantity money show_id menu restaurant raws x) r' h in
      let (a1, c1) = resolve_one-adds menu restaurant raw r r1 one a in
      let (a2, c2) = resolve_items-adds menu restaurant raws r1 r' rest a1 in
      (a2, omega (arith, c1, c2))

  -- What a draft keeps of the call: every item is on the menu, and there is one.
  abbrev pub IsSound : List FoodMeta → ParseOrderResponse → Type 0
  IsSound menu resp =
      All (OnMenu menu) resp.draft.items
      × (1 ≤ length resp.draft.items)
      × (resp.draft.estimated_total ≡ total_of lower to_quantity money show_id resp.draft.items)
      × (resp.confidence ≡ 100 - 15 * length resp.issues)

  respond-keeps :
      (menu : List FoodMeta) (t : Target) (fs : Fields) (r : Resolved) (resp : ParseOrderResponse)
      → respond lower to_quantity money show_id t fs r ≡ ok resp
      → All (OnMenu menu) r.items
      → IsSound menu resp × (resp.draft.items ≡ r.items) × (resp.issues ≡ r.issues)
  unfolding respond
  respond-keeps menu t fs r resp h a =
      let full : is_empty r.items ≡ false = ground arith in
      let (d, delivered, made) =
        >>=-eq-ok (delivery_field lower to_quantity money show_id fs)
          (λ delivery. ok (record {
            draft = record {
              draft_restaurant_id = id_or_zero lower to_quantity money show_id t.target_id;
              draft_restaurant_name = t.target_name;
              delivery_option = delivery;
              items = r.items;
              estimated_total = total_of lower to_quantity money show_id r.items;
            };
            confidence = 100 - 15 * length r.issues;
            issues = r.issues;
          }))
          resp (ground arith) in
      rw (← ok_inj made) ((a, nonempty r.items full, refl, refl), refl, refl)

  -- When `read_call` answers a draft, the draft is as `IsSound` says, and its items and issues together
  -- are as many as the requested items and the issues met in finding the restaurant. It is assumed
  -- that a valid quantity is at least 1.
  pub read_call_lem :
      (menu : List FoodMeta) (hint : Option ℕ) (fs : Fields) (resp : ParseOrderResponse)
      → read_call lower to_quantity money show_id menu hint fs ≡ ok resp
      → IsSound menu resp
        × ((xs : Items) × (name : String) × (raw_items lower to_quantity money show_id fs ≡ ok xs)
            × (text_field lower to_quantity money show_id fs "restaurant_name" "" ≡ ok name)
            × (length resp.draft.items + length resp.issues
                ≡ count_items xs
                  + length
                      (find_target lower to_quantity money show_id menu name hint).target_issues))
  unfolding read_call
  read_call_lem menu hint fs resp h =
      let (xs, raws, h1) = >>=-eq-ok (raw_items lower to_quantity money show_id fs) _ resp h in
      let (name, named, h2) =
        >>=-eq-ok (text_field lower to_quantity money show_id fs "restaurant_name" "") _ resp h1 in
      let t = find_target lower to_quantity money show_id menu name hint in
      let start : Resolved = record { items = []; issues = t.target_issues } in
      let (r, resolved, h3) =
        >>=-eq-ok (resolve_items lower to_quantity money show_id menu t.target_name xs start) _ resp
          h2 in
      let (a, count) = resolve_items-adds menu t.target_name xs start r resolved tt in
      let (sound, same_items, same_issues) = respond-keeps menu t fs r resp h3 a in
      (
        sound,
        (xs, name, raws, named, omega (arith, ap length same_items, ap length same_issues, count)),
      )

  read_reply-call :
      (menu : List FoodMeta) (hint : Option ℕ) (reply : ToolReply) (resp : ParseOrderResponse)
      → read_reply lower to_quantity money show_id menu hint reply ≡ ok resp
      → (fs : Fields) × (read_call lower to_quantity money show_id menu hint fs ≡ ok resp)
  unfolding read_reply
  read_reply-call menu hint (text_only_result text stop) resp h = absurd (ground arith)
  read_reply-call menu hint (tool_call_result name (obj fs) raw stop) resp h = (fs, ground arith)
  read_reply-call menu hint (tool_call_result name j raw stop) resp h = absurd (ground arith)

  -- A draft that `parse_order` answers holds at least one item, only foods of the menu under their
  -- names and at their prices and each at least once, the total of its items, and the confidence
  -- that the number of issues gives. It is assumed that a valid quantity is at least 1.
  pub parse_order-IsSound :
      (llm : String → String → List ToolDef → Outcome ToolReply)
      → (user_text : String) (menu : List FoodMeta) (hint : Option ℕ) (resp : ParseOrderResponse)
      → parse_order lower to_quantity money show_id llm user_text menu hint ≡ ok resp
      → IsSound menu resp
  unfolding parse_order
  parse_order-IsSound llm user_text menu hint resp h =
      elim (Outcome-cases
        (llm (system_prompt money show_id menu hint) user_text (order_draft_tool ∷ []))) [
          | inl (e, failed) ↦ absurd (ground arith)
          | inr (reply, done) ↦
              let (fs, called) = read_reply-call menu hint reply resp (ground arith) in
              (read_call_lem menu hint fs resp called).0
        ]
