-- ===== src/Eval/Verdicts.antt =====
-- The accounts of the judge: every sample is a vote or a failure.
use mathlib.Core.Path.{subst}
use food_order_system.Base.{
  ℕ, zero, suc, ◌+◌, ◌≤◌, ◌≡◌, ◌⊎◌, refl, String, true, false, none, some, List, [], ◌∷◌, In, All,
  All-append, arith, leb, is_empty, length, length-append, inl, inr,
}
use food_order_system.Base.Outcome.{Outcome, returned, raised, Outcome-cases}
use food_order_system.Llm.{ToolReply}
use food_order_system.Eval.Judge.{
  Turn, judge_system, user_message, llm_as_judge, Reader, Reading, Verdict, majority, note,
  parse_score, read_sample, sample, judge_samples, raw_of,
}
use food_order_system.Eval.Votes.{votes_for, majority_lem}
use food_order_system.Eval.Readings.{IsOnScale, Escapes, IsRead, IsRead-weaken, parse_score-IsRead}

-- Every sample is accounted for, each vote has its rationale, and is on the scale.
abbrev pub IsAccount : ℕ → Verdict → Type 0
IsAccount n v =
    (length v.votes + v.parse_failures ≡ n)
    × (length v.rationales ≡ length v.votes)
    × All (λ s. s ≤ 5) v.votes

-- The score is the highest of those that no other beats in votes.
abbrev pub IsMode : ℕ → List ℕ → Type 0
IsMode m votes =
    In m votes
    × ((s : ℕ) → votes_for s votes ≤ votes_for m votes)
    × ((s : ℕ) → In s votes → votes_for s votes ≡ votes_for m votes → s ≤ m)

note-IsAccount :
    (n : ℕ) (r : Reading) (v : Verdict) → IsOnScale r → IsAccount n v → IsAccount (suc n) (note r v)
unfolding note
note-IsAccount n (none, t) v ok (total, same, all) = (omega (arith, total), same, all)
note-IsAccount n (some s, t) v ok (total, same, all) = (
  omega (arith, total, length-append v.votes (s ∷ [])),
  omega (arith, same, length-append v.votes (s ∷ []), length-append v.rationales (t ∷ [])),
  All-append (λ x. x ≤ 5) v.votes (s ∷ []) all (ok, tt),
)

module _ (reader : Reader) where
  module _ {W : Type 0} (ask : W → Outcome ToolReply × W) where
    -- The model gave a reply that escapes with this exception.
    abbrev pub Escaped : String → Type 0
    Escaped e =
        (w : W) × (reply : ToolReply) × ((ask w).0 ≡ returned reply)
        × Escapes reader (raw_of reply) e

    read_sample-IsRead : (w : W) → IsRead reader Escaped (read_sample reader ask (ask w).0)
    unfolding read_sample
    read_sample-IsRead w = elim (Outcome-cases (ask w).0) [
      | inl (e, q) ↦ rw (q, read_sample) tt
      | inr (reply, q) ↦
          rw (q, read_sample)
            (IsRead-weaken reader (Escapes reader (raw_of reply)) Escaped
              (parse_score reader (raw_of reply)) (λ e h. (w, reply, q, h))
              (parse_score-IsRead reader (raw_of reply)))
    ]

    -- The samples were all taken and stand in the account, or a reply escaped.
    abbrev IsJudged : ℕ → Outcome Verdict → Type 0
    IsJudged n o = elim o as (λ x. Type 0) [ raised e ↦ Escaped e | returned v ↦ IsAccount n v ]

    sample-IsJudged :
        (n k : ℕ) (v : Verdict) (w : W)
        → IsAccount k v
        → IsJudged (n + k) (sample reader ask n v w).0
    unfolding sample
    sample-IsJudged zero k v w ok = (omega (arith, ok.0), ok.1, ok.2)
    sample-IsJudged (suc n) k v w ok =
        let read = read_sample-IsRead w in
        elim (Outcome-cases (read_sample reader ask (ask w).0)) [
          | inl (e, q) ↦ rw (q, sample) (rw q at read)
          | inr (r, q) ↦
              let on : IsOnScale r = rw q at read in
              let more : n + suc k ≡ suc n + k = omega arith in
              rw (q, sample)
                (subst (λ m. IsJudged m (sample reader ask n (note r v) (ask w).1).0) more
                  (sample-IsJudged n (suc k) (note r v) (ask w).1 (note-IsAccount k r v on ok)))
        ]

    -- A verdict is good for so many samples.
    abbrev pub IsVerdict : ℕ → Verdict → Type 0
    IsVerdict n v =
        IsAccount n v
        × (is_empty v.votes ≡ true → v.score ≡ 0)
        × (is_empty v.votes ≡ false → IsMode v.score v.votes)

    judge_samples_lem :
        (samples : ℕ) (w : W)
        → 1 ≤ samples
        → ((v : Verdict) × ((judge_samples reader ask samples w).0 ≡ returned v)
            × IsVerdict samples v)
          ⊎ ((e : String) × ((judge_samples reader ask samples w).0 ≡ raised e) × Escaped e)
    unfolding judge_samples
    judge_samples_lem samples w h =
        let start : Verdict = record {
          score = 0;
          votes = [];
          rationales = [];
          parse_failures = 0;
        } in
        let judged = sample-IsJudged samples 0 start w (refl, refl, tt) in
        let positive : leb samples 0 ≡ false = ground (arith, h) in
        elim (Outcome-cases (sample reader ask samples start w).0) [
          | inl (e, q) ↦ inr (e, rw (positive, q, judge_samples) refl, rw q at judged)
          | inr (v, q) ↦
              let account : IsAccount (samples + 0) v = rw q at judged in
              inl (
                record v { score = majority v.votes },
                rw (positive, q, judge_samples) refl,
                (
                  (omega (arith, account.0), account.1, account.2),
                  (λ none_voted. rw (none_voted, majority) refl),
                  (λ voted. majority_lem v.votes voted),
                ),
              )
        ]

module _ (reader : Reader) (upper quote : String → String) {W : Type 0}
    (ask : W → String → String → Outcome ToolReply × W) where
  -- The model, asked with the prompt of the judge.
  abbrev pub asked : List Turn → String → W → Outcome ToolReply × W
  asked conversation criteria w =
      ask w judge_system (user_message reader upper quote ask conversation criteria)

  -- After any positive number of samples the judge answers, also when calls of the model raise: each
  -- sample is a vote or a failure, each vote has a rationale and is at most 5, and the score is the
  -- highest of the most frequent votes, or 0 if there is no vote. The judge raises only if a reply of
  -- the model is json that is no object, or has a score whose conversion raises what is not caught; the
  -- exception is then that one.
  pub llm_as_judge_lem :
      (conversation : List Turn) (criteria : String) (samples : ℕ) (w : W)
      → 1 ≤ samples
      → ((v : Verdict) × ((llm_as_judge reader upper quote ask conversation criteria samples w).0
            ≡ returned v)
          × IsVerdict reader (asked conversation criteria) samples v)
        ⊎ ((e : String) × ((llm_as_judge reader upper quote ask conversation criteria samples w).0
              ≡ raised e)
            × Escaped reader (asked conversation criteria) e)
  unfolding llm_as_judge
  llm_as_judge_lem conversation criteria samples w h =
      judge_samples_lem reader (asked conversation criteria) samples w h
