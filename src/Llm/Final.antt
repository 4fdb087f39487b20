-- ===== src/Llm/Final.antt =====
-- The final message of a stream.
use mathlib.Core.Path.{ap₂}
use food_order_system.Base.{
  ℕ, String, nat_eq, false, Option, List, [], ◌∷◌, map, ◌≡◌, ◌↔◌, refl, ap, sym, ◌∙◌, is_empty,
  is_blank, if◌then◌else◌, join, leb, ltb, In, All, Bool-cases, inl, inr,
}
use food_order_system.Base.Dict
use food_order_system.Base.Dict.{Dict, IsDistinct, IsDistinct-put, get-put}
use food_order_system.Base.Json.{Json}
use food_order_system.Base.Keys.{IsDistinct-sort, ascending_keys}
use food_order_system.Base.Parts.{join-filled, filled-is_empty}
use food_order_system.Base.Sort.{sort, IsSorted, sort-IsSorted}
use food_order_system.Base.Whole.{whole_total, whole_trans}
use food_order_system.Llm.{ToolUse, texts, tool_uses}
use food_order_system.Llm.Providers.{Chunk, text_buf, deltas_of, final_content}
use food_order_system.Llm.OpenAi.{
  Call, call_blocks, input_of, streamed_calls, Frag, no_frag, frag_of, accumulate,
}
-- The fragments of the call with this index, in the order in which the chunks bring them.
use food_order_system.Llm.Fragments.{
  fragments, latest, extend, at-deltas, accumulate-extend, extend_fields, accumulate-IsDistinct,
  sorted_frags, indices_iff,
}

-- The call with this index: its last identifier and name, and the input that its arguments spell
-- together.
abbrev pub call_at : (String → Option Json) → List Chunk → ℕ → ToolUse
call_at loads chunks i =
    let ds = fragments chunks i in
    record {
      id = latest "" (map (λ d. d.delta_id) ds);
      name = latest "" (map (λ d. d.delta_name) ds);
      input = input_of loads (join "" (map (λ d. d.delta_args) ds));
    }

module _ (loads : String → Option Json) where
  abbrev spelled : String → String → String → ToolUse
  spelled id name arguments = record { id = id; name = name; input = input_of loads arguments }

  -- The tool call that a completed fragment becomes.
  abbrev use_of : ℕ × Frag → ToolUse
  use_of e = spelled e.1.frag_id e.1.frag_name (join "" e.1.pieces)

  abbrev call_of : ℕ × Frag → Call
  call_of e = record {
    call_id = e.1.frag_id;
    call_name = e.1.frag_name;
    arguments = join "" e.1.pieces;
  }

  call_blocks_kinds :
      (es : List (ℕ × Frag))
      → (texts (call_blocks loads (map call_of es)) ≡ [])
        × (tool_uses (call_blocks loads (map call_of es)) ≡ map use_of es)
  unfolding call_blocks texts tool_uses
  call_blocks_kinds [] = (refl, refl)
  call_blocks_kinds (e ∷ es) = let (a, b) = call_blocks_kinds es in (a, ap (λ l. use_of e ∷ l) b)

  use_at :
      (chunks : List Chunk) (i : ℕ) (f : Frag)
      → frag_of (accumulate (deltas_of chunks) []) i ≡ f
      → use_of (i, f) ≡ call_at loads chunks i
  unfolding frag_of Dict.get
  use_at chunks i f h =
      let ds = fragments chunks i in
      let (a, b, c) = extend_fields no_frag ds in
      let same : f ≡ extend no_frag ds =
        sym h
        ∙ accumulate-extend (deltas_of chunks) [] i
        ∙ ap (extend no_frag) (at-deltas chunks i) in
      ap (λ g. use_of (i, g)) same
      ∙ ap₂ (λ x y. spelled x y (join "" (extend no_frag ds).pieces)) a b
      ∙ ap (spelled _ _) (ap (join "") c ∙ join-filled (map (λ d. d.delta_args) ds))

  uses_at :
      (chunks : List Chunk) (es : List (ℕ × Frag))
      → All (λ e. frag_of (accumulate (deltas_of chunks) []) e.0 ≡ e.1) es
      → map use_of es ≡ map (call_at loads chunks) (map (λ e. e.0) es)
  uses_at chunks [] h = refl
  uses_at chunks ((i, f) ∷ es) h =
      ap₂ (λ u us. u ∷ us) (use_at chunks i f h.0) (uses_at chunks es h.1)

  -- The final message of a stream has the text of all its text deltas together, as one block if there
  -- is any. It has one tool call for each index of which the stream had a fragment, in ascending order
  -- of the indices; the call has the last identifier and the last name that came for it, and the input
  -- is decoded from its arguments, put together in the order in which they came.
  pub final_content_lem :
      (chunks : List Chunk)
      → let said = join "" (map (λ c. c.content) chunks) in
        (texts (final_content loads chunks) ≡ (if is_blank said then [] else said ∷ []))
        × ((indices : List ℕ) × IsSorted ltb indices
            × ((i : ℕ) → In i indices ↔ (is_empty (fragments chunks i) ≡ false))
            × (tool_uses (final_content loads chunks) ≡ map (call_at loads chunks) indices))
  unfolding final_content texts tool_uses streamed_calls text_buf
  final_content_lem chunks =
      let contents = map (λ (c : Chunk). c.content) chunks in
      let d = accumulate (deltas_of chunks) [] in
      let le = λ (a b : ℕ × Frag). leb a.0 b.0 in
      let distinct : IsDistinct d = accumulate-IsDistinct (deltas_of chunks) [] tt in
      let (none_more, calls) = call_blocks_kinds (sort le d) in
      let uses = calls ∙ uses_at chunks (sort le d) (sorted_frags d distinct) in
      let indices = map (λ (e : ℕ × Frag). e.0) (sort le d) in
      let empty = filled-is_empty contents in
      let ascending : IsSorted ltb indices =
        ascending_keys (sort le d)
          (sort-IsSorted le (λ a b. whole_total a.0 b.0) (λ a b c p q. whole_trans a.0 b.0 c.0 p q)
            d)
          (IsDistinct-sort le d distinct) in
      elim (Bool-cases (is_empty (text_buf chunks))) [
        | inl e ↦
            rw (e, final_content)
              (
                rw (sym empty ∙ e) none_more,
                (indices, ascending, (λ i. indices_iff chunks i), uses),
              )
        | inr e ↦
            rw (e, final_content)
              (
                rw (sym empty ∙ e) (
                    ap (λ l. join "" (text_buf chunks) ∷ l) none_more
                    ∙ ap (λ t. t ∷ []) (join-filled contents)),
                (indices, ascending, (λ i. indices_iff chunks i), uses),
              )
      ]
