-- ===== src/Eval/Votes.antt =====
-- What the judge answers: the score that most samples gave.
use mathlib.Core.Path.{subst}
use food_order_system.Base.{
  ℕ, ◌+◌, ◌≤◌, ◌≡◌, refl, ap, sym, ◌∙◌, nat_eq, false, Option, none, some, List, [], ◌∷◌, map, In,
  arith, leb, nat_beq, nat_beq_iff, ◌==◌, ==_iff, is_empty, select, In-select, In-select_intro,
  count, Bool-cases, Option-cases, inl, inr,
}
use food_order_system.Base.Dict
use food_order_system.Base.Dict.{Dict, IsDistinct, IsDistinct-put, get-put}
use food_order_system.Base.Entries.{In-map, In-of_In-map, In-get, get-In}
use food_order_system.Eval.Judge.{counter, maximum, majority}

-- How often the counter has seen a score.
abbrev or_zero : Option ℕ → ℕ
or_zero none = 0
or_zero (some n) = n

abbrev seen : Dict ℕ ℕ → ℕ → ℕ
seen counts s = or_zero (Dict.get counts s)

abbrev pub votes_for : ℕ → List ℕ → ℕ
votes_for s scores = count (λ t. t == s) scores

counter-seen :
    (scores : List ℕ) (counts : Dict ℕ ℕ) (s : ℕ)
    → seen (counter scores counts) s ≡ seen counts s + votes_for s scores
unfolding counter select
counter-seen [] counts s = omega arith
counter-seen (t ∷ ts) counts s =
    let next = Dict.put counts t (seen counts t + 1) in
    let put = get-put counts t s (seen counts t + 1) in
    elim (Bool-cases (t == s)) [
      | inl e ↦
          let now : seen next s ≡ seen counts s + 1 =
            ap or_zero put ∙ rw e (ap (λ x. seen counts x + 1) ((==_iff t s).0 e)) in
          rw e (omega (arith, counter-seen ts next s, now))
      | inr e ↦
          let now : seen next s ≡ seen counts s = ap or_zero put ∙ rw e refl in
          rw e (omega (arith, counter-seen ts next s, now))
    ]

IsDistinct-counter :
    (scores : List ℕ) (counts : Dict ℕ ℕ) → IsDistinct counts → IsDistinct (counter scores counts)
unfolding counter
IsDistinct-counter [] counts h = h
IsDistinct-counter (t ∷ ts) counts h =
    IsDistinct-counter ts (Dict.put counts t (seen counts t + 1)) (IsDistinct-put counts t _ h)

maximum-ge : (ns : List ℕ) (n : ℕ) → In n ns → n ≤ maximum ns
unfolding maximum
maximum-ge [] n m = absurd m
maximum-ge (k ∷ ks) n (inl e) = omega (arith, e)
maximum-ge (k ∷ ks) n (inr m) = omega (arith, maximum-ge ks n m)

maximum-In : (n : ℕ) (ns : List ℕ) → In (maximum (n ∷ ns)) (n ∷ ns)
unfolding maximum
maximum-In n [] = inl (omega arith)
maximum-In n (k ∷ ks) = elim (Bool-cases (leb n (maximum (k ∷ ks)))) [
  | inl le ↦
      let same : maximum (k ∷ ks) ≡ maximum (n ∷ k ∷ ks) = ground (arith, le) in
      inr (subst (λ x. In x (k ∷ ks)) same (maximum-In k ks))
  | inr gt ↦ inl (ground (arith, gt))
]

In-votes : (scores : List ℕ) (s : ℕ) → 1 ≤ votes_for s scores → In s scores
unfolding select
In-votes [] s h = absurd (omega (arith, h))
In-votes (t ∷ ts) s h = elim (Bool-cases (t == s)) [
  | inl e ↦ inl (sym ((==_iff t s).0 e))
  | inr e ↦ inr (In-votes ts s (ground (arith, h, e)))
]

votes_of_In : (scores : List ℕ) (s : ℕ) → In s scores → 1 ≤ votes_for s scores
unfolding select
votes_of_In [] s m = absurd m
votes_of_In (t ∷ ts) s (inl e) = ground (arith, e, ==_iff t s)
votes_of_In (t ∷ ts) s (inr m) = ground (arith, votes_of_In ts s m)

-- An entry of the counter is a score with its votes.
entry_votes : (scores : List ℕ) (s n : ℕ) → In (s, n) (counter scores []) → n ≡ votes_for s scores
unfolding Dict.get
entry_votes scores s n m =
    sym (ap or_zero (get-In (counter scores []) s n (IsDistinct-counter scores [] tt) m))
    ∙ counter-seen scores [] s
    ∙ omega arith

-- A score that has votes is an entry.
votes_entry :
    (scores : List ℕ) (s : ℕ)
    → 1 ≤ votes_for s scores
    → In (s, votes_for s scores) (counter scores [])
unfolding Dict.get
votes_entry scores s h =
    let total : seen (counter scores []) s ≡ votes_for s scores =
      counter-seen scores [] s ∙ omega arith in
    elim (Option-cases (Dict.get (counter scores []) s)) [
      | inl e ↦ absurd (omega (arith, ap or_zero e, total, h))
      | inr (n, e) ↦
          subst (λ x. In (s, x) (counter scores [])) (sym (ap or_zero e) ∙ total)
            (In-get (counter scores []) s n e)
    ]

abbrev top_of : List ℕ → ℕ
top_of scores = maximum (map (λ e. e.1) (counter scores []))

abbrev winners : List ℕ → List (ℕ × ℕ)
winners scores = select (λ e. nat_beq (e.1) (top_of scores)) (counter scores [])

votes_le_top : (scores : List ℕ) (s : ℕ) → votes_for s scores ≤ top_of scores
votes_le_top scores s = elim (Bool-cases (leb 1 (votes_for s scores))) [
  | inl h ↦ maximum-ge (map (λ e. e.1) (counter scores [])) (votes_for s scores) (
      In-map (λ e. e.1) (counter scores []) (s, votes_for s scores)
        (votes_entry scores s (ground (arith, h))))
  | inr h ↦ ground (arith, h)
]

winner :
    (scores : List ℕ) (s : ℕ)
    → In s scores
    → votes_for s scores ≡ top_of scores
    → In (s, top_of scores) (winners scores)
winner scores s m e =
    In-select_intro (λ x. nat_beq (x.1) (top_of scores)) (counter scores []) (s, top_of scores)
      (subst (λ x. In (s, x) (counter scores [])) e (votes_entry scores s (votes_of_In scores s m)))
      ((nat_beq_iff (top_of scores) (top_of scores)).1 refl)

maximum_member : (ns : List ℕ) (n : ℕ) → In n ns → In (maximum ns) ns
maximum_member [] n m = absurd m
maximum_member (k ∷ ks) n m = maximum-In k ks

has_top : (scores : List ℕ) → is_empty scores ≡ false → 1 ≤ top_of scores
has_top [] h = absurd (ground arith)
has_top (t ∷ ts) h = omega (arith, votes_of_In (t ∷ ts) t (inl refl), votes_le_top (t ∷ ts) t)

-- A score with the most votes, among the keys of the winners.
abbrev IsWon : List ℕ → ℕ → Type 0
IsWon scores m = (votes_for m scores ≡ top_of scores) × In m (map (λ e. e.0) (winners scores))

winning :
    (scores : List ℕ)
    → is_empty scores ≡ false
    → IsWon scores (maximum (map (λ e. e.0) (winners scores)))
winning [] h = absurd (ground arith)
winning (t ∷ ts) h =
    let scores = t ∷ ts in
    let counts = counter scores [] in
    let entry : In (t, votes_for t scores) counts =
      votes_entry scores t (votes_of_In scores t (inl refl)) in
    let values = map (λ (e : ℕ × ℕ). e.1) counts in
    let top : In (top_of scores) values =
      maximum_member values (votes_for t scores)
        (In-map (λ e. e.1) counts (t, votes_for t scores) entry) in
    let (best, at, e) = In-of_In-map (λ e. e.1) counts (top_of scores) top in
    let won : In best (winners scores) =
      In-select_intro (λ x. nat_beq (x.1) (top_of scores)) counts best at
        ((nat_beq_iff best.1 (top_of scores)).1 (sym e)) in
    let keys = map (λ (e : ℕ × ℕ). e.0) (winners scores) in
    let key : In (maximum keys) keys =
      maximum_member keys best.0 (In-map (λ e. e.0) (winners scores) best won) in
    let (b, in_winners, f) = In-of_In-map (λ e. e.0) (winners scores) (maximum keys) key in
    let (in_counts, is_top) = In-select (λ x. nat_beq (x.1) (top_of scores)) counts b in_winners in
    (
      ap (λ m. votes_for m scores) f
          ∙ sym (entry_votes scores b.0 b.1 in_counts)
          ∙ (nat_beq_iff b.1 (top_of scores)).0 is_top,
      key,
    )

-- With any scores, the majority is one of them: none has more votes, and none that has as many is
-- higher.
pub majority_lem :
    (scores : List ℕ)
    → is_empty scores ≡ false
    → In (majority scores) scores
      × ((s : ℕ) → votes_for s scores ≤ votes_for (majority scores) scores)
      × ((s : ℕ)
          → In s scores
          → votes_for s scores ≡ votes_for (majority scores) scores
          → s ≤ majority scores)
unfolding majority
majority_lem scores h =
    let keys = map (λ (e : ℕ × ℕ). e.0) (winners scores) in
    let same : maximum keys ≡ majority scores = sym (rw (h, majority) refl) in
    let (votes, found) = subst (IsWon scores) same (winning scores h) in
    (
      In-votes scores (majority scores) (omega (arith, votes, has_top scores h)),
      (λ s. rw votes (votes_le_top scores s)),
      (λ s m e. rw (sym same) (
          maximum-ge keys s (
            In-map (λ x. x.0) (winners scores) (s, top_of scores)
              (winner scores s m (e ∙ votes))))),
    )
