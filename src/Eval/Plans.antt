-- ===== src/Eval/Plans.antt =====
-- The plan of a turn: which tools it expects, and when the chat suite counts it as followed.
use food_order_system.Base.{
  ◌==◌, ==_iff, string_eq, any, Option, none, some, Bool-cases, is_empty, ◌≡◌, refl, ap, sym, ◌∙◌,
  String, true, List, [], ◌∷◌, arith, Option, some, any, In, is_empty, Bool-cases, inl, inr,
}
use food_order_system.Eval.ChatSuite.{distinct, plan_ok}

-- What a turn that expects this tool may call, at least.
abbrev pub IsPlanned : Option String → List String → Type 0
IsPlanned none called = called ≡ []
IsPlanned (some name) called = In name called

In-distinct :
    (name : String) (called : List String)
    → any (λ t. t == name) (distinct called) ≡ true
    → In name called
unfolding distinct any
In-distinct name [] h = absurd (ground (arith, h))
In-distinct name (n ∷ ns) h =
    let seen = distinct ns in
    elim (Bool-cases (any (λ m. m == n) seen)) [
      | inl twice ↦ inr (In-distinct name ns (rw (twice, distinct) at h))
      | inr fresh ↦ elim (Bool-cases (n == name)) [
        | inl same ↦ inl (sym ((==_iff n name).0 same))
        | inr other ↦ inr (In-distinct name ns (rw (fresh, other, distinct) at h))
      ]
    ]

distinct-empty : (called : List String) → is_empty (distinct called) ≡ true → called ≡ []
unfolding distinct any
distinct-empty [] h = refl
distinct-empty (n ∷ ns) h = elim (Bool-cases (any (λ m. m == n) (distinct ns))) [
  | inl twice ↦
      let none_left = distinct-empty ns (rw (twice, distinct) at h) in
      absurd (
        let p : any (λ m. m == n) (distinct []) ≡ true =
          ap (λ l. any (λ m. m == n) (distinct l)) (sym none_left) ∙ twice in
        ground (arith, p))
  | inr fresh ↦ absurd (let p = rw (fresh, distinct) at h in ground (arith, p))
]

pub plan_ok-IsPlanned :
    (tool : Option String) (called : List String)
    → plan_ok tool (distinct called) ≡ true
    → IsPlanned tool called
unfolding plan_ok
plan_ok-IsPlanned none called h = distinct-empty called h
plan_ok-IsPlanned (some name) called h = In-distinct name called h
