-- ===== src/Llm/Stream.antt =====
-- The reassembly of tool calls from the fragments of a stream.
use food_order_system.Base.{
  ℕ, nat_eq, Bool, not, ◌&&◌, List, [], ◌∷◌, ◌++◌, map, ◌≡◌, refl, ap, sym, ◌∙◌, arith, is_blank,
  ◌==◌, ==_iff, select, Bool-cases, inl, inr,
}
use mathlib.Core.List.{append_assoc, append-nil}
use food_order_system.Base.Dict
use food_order_system.Base.Dict.{Dict, get-put}
use food_order_system.Llm.OpenAi.{Delta, Frag, frag_of, merge, accumulate}

-- The fragments of a call that carry arguments.
abbrev pub has_args : ℕ → Delta → Bool
has_args i c = (c.index == i) && not (is_blank c.delta_args)

pieces-merge :
    (c : Delta) (d : Dict ℕ Frag) (i : ℕ)
    → (frag_of (Dict.put d c.index (merge c (frag_of d c.index))) i).pieces
      ≡ (frag_of d i).pieces ++ map (λ x. x.delta_args) (select (has_args i) (c ∷ []))
unfolding frag_of merge select
pieces-merge c d i =
    let put = get-put d c.index i (merge c (frag_of d c.index)) in
    let old = (frag_of d i).pieces in
    elim (Bool-cases (c.index == i)) [
      | inl same ↦
          let at : frag_of d c.index ≡ frag_of d i = ap (frag_of d) ((==_iff c.index i).0 same) in
          ground (arith, put, at, append-nil old)
      | inr other ↦ ground (arith, put, append-nil old)
    ]

map-select_cons :
    (i : ℕ) (c : Delta) (cs : List Delta)
    → map (λ x. x.delta_args) (select (has_args i) (c ∷ []))
        ++ map (λ x. x.delta_args) (select (has_args i) cs)
      ≡ map (λ x. x.delta_args) (select (has_args i) (c ∷ cs))
unfolding select
map-select_cons i c cs = elim (Bool-cases (has_args i c)) [ inl e ↦ rw e refl | inr e ↦ rw e refl ]

-- However the fragments of several calls interleave, the arguments of a call are those of its own
-- fragments, in the order in which they came.
pub accumulate-pieces :
    (cs : List Delta) (d : Dict ℕ Frag) (i : ℕ)
    → (frag_of (accumulate cs d) i).pieces
      ≡ (frag_of d i).pieces ++ map (λ c. c.delta_args) (select (has_args i) cs)
unfolding accumulate select
accumulate-pieces [] d i = sym (append-nil (frag_of d i).pieces)
accumulate-pieces (c ∷ cs) d i =
    let d' = Dict.put d c.index (merge c (frag_of d c.index)) in
    let args = λ (xs : List Delta). map (λ (x : Delta). x.delta_args) (select (has_args i) xs) in
    accumulate-pieces cs d' i
    ∙ ap (λ l. l ++ args cs) (pieces-merge c d i)
    ∙ append_assoc (frag_of d i).pieces (args (c ∷ [])) (args cs)
    ∙ ap (λ l. (frag_of d i).pieces ++ l) (map-select_cons i c cs)
