-- ===== src/Retrieval/Fusion.antt =====
-- The fused ranking ranks each food once.
use food_order_system.Base.{ℕ, suc, ◌≡◌, ◌↔◌, nat_eq, false, List, [], ◌∷◌, arith, All, ◌==◌}
use food_order_system.Base.Dict.{Dict, Absent, IsDistinct, IsDistinct-put}
use food_order_system.Base.Keys.{Absent-put_iff, Absent-sort_iff, IsDistinct-sort}
use food_order_system.Base.Float.{Float}
use food_order_system.Base.Sort.{IsSorted, sort-IsSorted}
use food_order_system.Retrieval.{Scored, by_score, contribute, add_ranking, add_rankings, rrf_fuse}

module _ (fl : Float) where
  Absent-contribute_iff :
      (k rank id : ℕ) (d : Dict ℕ fl.F) (i : ℕ)
      → Absent i (contribute fl k rank id d) ↔ (((id == i) ≡ false) × Absent i d)
  unfolding contribute
  Absent-contribute_iff k rank id d i = Absent-put_iff d i id _

  Absent-add_ranking_iff :
      (k rank : ℕ) (r : List (Scored fl)) (d : Dict ℕ fl.F) (i : ℕ)
      → Absent i (add_ranking fl k rank r d) ↔ (Absent i r × Absent i d)
  unfolding add_ranking
  Absent-add_ranking_iff k rank [] d i = ground arith
  Absent-add_ranking_iff k rank ((id, x) ∷ r) d i = ground (
    arith,
    Absent-add_ranking_iff k (suc rank) r (contribute fl k rank id d) i,
    Absent-contribute_iff k rank id d i,
  )

  Absent-add_rankings_iff :
      (k : ℕ) (rs : List (List (Scored fl))) (d : Dict ℕ fl.F) (i : ℕ)
      → Absent i (add_rankings fl k rs d) ↔ (All (Absent i) rs × Absent i d)
  unfolding add_rankings
  Absent-add_rankings_iff k [] d i = ground arith
  Absent-add_rankings_iff k (r ∷ rs) d i = ground (
    arith,
    Absent-add_rankings_iff k rs (add_ranking fl k 1 r d) i,
    Absent-add_ranking_iff k 1 r d i,
  )

  IsDistinct-add_ranking :
      (k rank : ℕ) (r : List (Scored fl)) (d : Dict ℕ fl.F)
      → IsDistinct d
      → IsDistinct (add_ranking fl k rank r d)
  unfolding add_ranking contribute
  IsDistinct-add_ranking k rank [] d h = h
  IsDistinct-add_ranking k rank ((id, x) ∷ r) d h =
      IsDistinct-add_ranking k (suc rank) r (contribute fl k rank id d) (IsDistinct-put d id _ h)

  IsDistinct-add_rankings :
      (k : ℕ) (rs : List (List (Scored fl))) (d : Dict ℕ fl.F)
      → IsDistinct d
      → IsDistinct (add_rankings fl k rs d)
  unfolding add_rankings
  IsDistinct-add_rankings k [] d h = h
  IsDistinct-add_rankings k (r ∷ rs) d h =
      IsDistinct-add_rankings k rs (add_ranking fl k 1 r d) (IsDistinct-add_ranking k 1 r d h)

  -- The fused ranking ranks a food exactly when one of the rankings does, ranks none twice, and
  -- stands in descending order of the scores.
  pub rrf_fuse-ids :
      (k : ℕ) (rs : List (List (Scored fl)))
      → ((i : ℕ) → Absent i (rrf_fuse fl k rs) ↔ All (Absent i) rs)
        × IsDistinct (rrf_fuse fl k rs)
        × IsSorted (by_score fl) (rrf_fuse fl k rs)
  unfolding rrf_fuse
  rrf_fuse-ids k rs =
      let totals = add_rankings fl k rs [] in
      (
        λ i.
            ground
              (arith, Absent-sort_iff (by_score fl) totals i, Absent-add_rankings_iff k rs [] i),
        IsDistinct-sort (by_score fl) totals (IsDistinct-add_rankings k rs [] tt),
        sort-IsSorted (by_score fl) (λ a b. fl.leb_total b.1 a.1)
            (λ a b c p q. fl.leb_trans c.1 b.1 a.1 q p) totals,
      )
