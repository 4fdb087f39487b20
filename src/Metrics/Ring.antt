-- ===== src/Metrics/Ring.antt =====
-- The ring buffer of LLM calls, against an unbounded log.
use food_order_system.Base.{
  ℕ, ◌≤◌, ◌≡◌, refl, ap, sym, ◌∙◌, newest, newest_nil, newest-newest, length-newest-le, Option,
  none, some, List, [], ◌∷◌, ◌++◌, map, length,
}
use mathlib.Core.List.{append_assoc, append-nil}
use food_order_system.Base.Float.{Float}
use food_order_system.Metrics.{LlmCallRecord, Metrics, init, push, record_llm_call}

module _ (fl : Float) where
  -- A recorded call: the clock, the caller's stamp, and the row.
  abbrev pub Call : Type 0
  Call = ℕ × Option ℕ × LlmCallRecord fl

  unfoldable pub record_all : List Call → Metrics fl → Metrics fl
  record_all [] m = m
  record_all ((now, ts, c) ∷ cs) m = record_all cs (record_llm_call fl now ts c m)

  abbrev pub stamped : Call → LlmCallRecord fl
  stamped c = record (c.2) { ts = elim (c.1) [ none ↦ c.0 | some t ↦ t ] }

  record_all-newest_from :
      (cs : List Call) (log : List (LlmCallRecord fl)) (m : Metrics fl)
      → m.records ≡ newest m.cap log
      → ((record_all cs m).records ≡ newest m.cap (log ++ map stamped cs))
        × ((record_all cs m).counters ≡ m.counters)
  unfolding record_all record_llm_call push newest
  record_all-newest_from [] log m h = (h ∙ ap (newest m.cap) (sym (append-nil log)), refl)
  record_all-newest_from ((now, ts, c) ∷ cs) log m h =
      let r = stamped (now, ts, c) in
      let next : (record_llm_call fl now ts c m).records ≡ newest m.cap (log ++ r ∷ []) =
        ap (λ l. newest m.cap (l ++ r ∷ [])) h ∙ newest-newest m.cap log r in
      let (rest, same) =
        record_all-newest_from cs (log ++ r ∷ []) (record_llm_call fl now ts c m) next in
      (rest ∙ ap (newest m.cap) (append_assoc log (r ∷ []) (map stamped cs)), same)

  -- After any calls on a new buffer it holds exactly the newest `cap` of them, in the order of
  -- arrival and with their stamps, and never more than `cap`.
  pub record_all-newest :
      (cap : ℕ) (cs : List Call)
      → ((record_all cs (init fl cap)).records ≡ newest cap (map stamped cs))
        × (length (record_all cs (init fl cap)).records ≤ cap)
  unfolding init
  record_all-newest cap cs =
      let (same, _) = record_all-newest_from cs [] (init fl cap) (newest_nil cap) in
      (same, rw same (length-newest-le cap (map stamped cs)))
