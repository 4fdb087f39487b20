-- ===== src/Llm/Fragments.antt =====
-- The fragments of the calls in a stream, and what the loop over the chunks makes of them.

use mathlib.Core.List.{append_assoc, append-nil}
use food_order_system.Base.{
  ℕ, String, nat_eq, Bool, true, false, not, ◌||◌, none, some, List, [], ◌∷◌, ◌++◌, map, ◌≡◌, ◌↔◌,
  refl, ap, sym, ◌∙◌, arith, is_empty, is_blank, if◌then◌else◌, ◌==◌, ==_iff, select, leb, In, All,
  Bool-cases, Option-cases, inl, inr,
}
use food_order_system.Base.Dict
use food_order_system.Base.Dict.{Dict, IsDistinct, IsDistinct-put, get-put}
use food_order_system.Base.Entries.{In-map, In-of_In-map, In-get, get-In}
use food_order_system.Base.Sort.{sort, In-sort, In-sort_intro}
use food_order_system.Llm.Providers.{Chunk, deltas_of}
use food_order_system.Llm.OpenAi.{Delta, Frag, frag_of, merge, accumulate}

-- The fragments of the call with this index, in the order in which the chunks bring them.
abbrev pub at : ℕ → List Delta → List Delta
at i ds = select (λ d. d.index == i) ds

abbrev pub fragments : List Chunk → ℕ → List Delta
fragments [] i = []
fragments (c ∷ cs) i = at i c.tool_deltas ++ fragments cs i

-- The last text that is not empty, or the first text if there is none.
abbrev pub latest : String → List String → String
latest old [] = old
latest old (s ∷ ss) = latest (if is_blank s then old else s) ss

select-append :
    (p : Delta → Bool) (xs ys : List Delta) → select p (xs ++ ys) ≡ select p xs ++ select p ys
unfolding select
select-append p [] ys = refl
select-append p (x ∷ xs) ys = elim (Bool-cases (p x)) [
  | inl e ↦ rw e (ap (λ l. x ∷ l) (select-append p xs ys))
  | inr e ↦ rw e (select-append p xs ys)
]

pub at-deltas : (chunks : List Chunk) (i : ℕ) → at i (deltas_of chunks) ≡ fragments chunks i
unfolding deltas_of select
at-deltas [] i = refl
at-deltas (c ∷ cs) i =
    select-append (λ d. d.index == i) c.tool_deltas (deltas_of cs)
    ∙ ap (λ l. at i c.tool_deltas ++ l) (at-deltas cs i)

-- What fragments make of what is known of a call.
abbrev pub extend : Frag → List Delta → Frag
extend f [] = f
extend f (d ∷ ds) = extend (merge d f) ds

frag-put :
    (c : Delta) (d : Dict ℕ Frag) (i : ℕ) (f : Frag)
    → frag_of (Dict.put d c.index f) i ≡ (if c.index == i then f else frag_of d i)
unfolding frag_of
frag-put c d i f = ground (arith, get-put d c.index i f)

pub accumulate-extend :
    (cs : List Delta) (d : Dict ℕ Frag) (i : ℕ)
    → frag_of (accumulate cs d) i ≡ extend (frag_of d i) (at i cs)
unfolding accumulate select
accumulate-extend [] d i = refl
accumulate-extend (c ∷ cs) d i =
    let new = merge c (frag_of d c.index) in
    let ih = accumulate-extend cs (Dict.put d c.index new) i in
    let step = ih ∙ ap (λ f. extend f (at i cs)) (frag-put c d i new) in
    elim (Bool-cases (c.index == i)) [
      | inl same ↦
          let here : frag_of d c.index ≡ frag_of d i = ap (frag_of d) ((==_iff c.index i).0 same) in
          rw same (rw same at step ∙ ap (λ f. extend (merge c f) (at i cs)) here)
      | inr other ↦ rw other (rw other at step)
    ]

pieces_step :
    (args : String) (old rest : List String)
    → (if is_blank args then old else old ++ args ∷ []) ++ select (λ s. not (is_blank s)) rest
      ≡ old ++ select (λ s. not (is_blank s)) (args ∷ rest)
unfolding select
pieces_step args old rest = elim (Bool-cases (is_blank args)) [
  | inl e ↦ rw e refl
  | inr e ↦ rw e (append_assoc old (args ∷ []) (select (λ s. not (is_blank s)) rest))
]

pub extend_fields :
    (f : Frag) (ds : List Delta)
    → ((extend f ds).frag_id ≡ latest f.frag_id (map (λ d. d.delta_id) ds))
      × ((extend f ds).frag_name ≡ latest f.frag_name (map (λ d. d.delta_name) ds))
      × ((extend f ds).pieces
          ≡ f.pieces ++ select (λ s. not (is_blank s)) (map (λ d. d.delta_args) ds))
unfolding merge select
extend_fields f [] = (refl, refl, sym (append-nil f.pieces))
extend_fields f (d ∷ ds) =
    let (a, b, c) = extend_fields (merge d f) ds in
    (a, b, c ∙ pieces_step d.delta_args f.pieces (map (λ x. x.delta_args) ds))

pub accumulate-IsDistinct :
    (cs : List Delta) (d : Dict ℕ Frag) → IsDistinct d → IsDistinct (accumulate cs d)
unfolding accumulate
accumulate-IsDistinct [] d h = h
accumulate-IsDistinct (c ∷ cs) d h =
    accumulate-IsDistinct cs _ (IsDistinct-put d c.index (merge c (frag_of d c.index)) h)

-- The dictionary has the call.
abbrev has : Dict ℕ Frag → ℕ → Bool
has d i = elim (Dict.get d i) [ none ↦ false | some f ↦ true ]

accumulate-has :
    (cs : List Delta) (d : Dict ℕ Frag) (i : ℕ)
    → has (accumulate cs d) i ≡ (has d i || not (is_empty (at i cs)))
unfolding accumulate select
accumulate-has [] d i = ground arith
accumulate-has (c ∷ cs) d i =
    let new = merge c (frag_of d c.index) in
    ground (arith, get-put d c.index i new, accumulate-has cs (Dict.put d c.index new) i)

has-In_iff :
    (d : Dict ℕ Frag) (i : ℕ)
    → IsDistinct d
    → In i (map (λ e. e.0) (sort (λ a b. leb a.0 b.0) d)) ↔ (has d i ≡ true)
has-In_iff d i h =
    let le = λ (a b : ℕ × Frag). leb a.0 b.0 in
    (
      λ m.
          let (e, n, q) = In-of_In-map (λ (x : ℕ × Frag). x.0) (sort le d) i m in
          let found : Dict.get d e.0 ≡ some e.1 = get-In d e.0 e.1 h (In-sort le d e n) in
          rw q (rw (found, has) refl),
      λ p. elim (Option-cases (Dict.get d i)) [
        | inl gone ↦ absurd (let q = rw (gone, has) at p in ground (arith, q))
        | inr (f, found) ↦
            In-map (λ (x : ℕ × Frag). x.0) (sort le d) (i, f)
              (In-sort_intro le d (i, f) (In-get d i f found))
      ],
    )

-- Each entry is what the dictionary has under its key.
entries_frags :
    (d : Dict ℕ Frag) (es : List (ℕ × Frag))
    → IsDistinct d
    → ((e : ℕ × Frag) → In e es → In e d)
    → All (λ e. frag_of d e.0 ≡ e.1) es
unfolding frag_of
entries_frags d [] h sub = tt
entries_frags d (e ∷ es) h sub =
    let found : Dict.get d e.0 ≡ some e.1 = get-In d e.0 e.1 h (sub e (inl refl)) in
    (ground (arith, found), entries_frags d es h (λ x m. sub x (inr m)))

pub sorted_frags :
    (d : Dict ℕ Frag) → IsDistinct d → All (λ e. frag_of d e.0 ≡ e.1) (sort (λ a b. leb a.0 b.0) d)
sorted_frags d h = entries_frags d _ h (λ e m. In-sort (λ a b. leb a.0 b.0) d e m)

pub indices_iff :
    (chunks : List Chunk) (i : ℕ)
    → In i (map (λ e. e.0) (sort (λ a b. leb a.0 b.0) (accumulate (deltas_of chunks) [])))
      ↔ (is_empty (fragments chunks i) ≡ false)
unfolding Dict.get
indices_iff chunks i =
    let members =
      has-In_iff (accumulate (deltas_of chunks) []) i
        (accumulate-IsDistinct (deltas_of chunks) [] tt) in
    let found =
      accumulate-has (deltas_of chunks) [] i ∙ ap (λ l. not (is_empty l)) (at-deltas chunks i) in
    (λ m. let p = sym found ∙ members.0 m in ground (arith, p), λ p. members.1 (found ∙ ap not p))
