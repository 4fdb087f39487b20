-- ===== src/Routers/Failures.antt =====
-- What `POST /ai/parse-order` answers when the cache has no entry for the request.
use mathlib.Core.Path.{subst}
use text.Mathlib.Text.{starts_with}
use food_order_system.Base.{
  arith, join, [], ◌∷◌, if◌then◌else◌, ℕ, ◌≡◌, refl, ap, sym, ◌∙◌, String, string_eq, true, false,
  Option, none, some, List, is_empty, Option-cases, inl, inr, Bool-cases,
}
use food_order_system.Base.Dict
use food_order_system.Base.Outcome.{Outcome, returned, raised}
use food_order_system.Cache.{Cache, wrapper, lookup, compute, keyed_call, key_of}
use food_order_system.Parser.{Parsed, ok, value_error, crashed, ParseOrderResponse}
use food_order_system.Schemas.{FoodMeta}
use food_order_system.Routers.{
  parse_answer, Answer, http_error, answer, ParseArgs, parse_signature, outcome_of, parse_error,
  parse_order,
}

-- A call without an entry gives what the function gives, and one that raises leaves the cache as it is.
module _ {V A : Type 0} (ttl_seconds maxsize : ℕ) (namespace : String) (raw_key : A → Option String)
    (sha256 : String → String) (func : A → Outcome V) where
  abbrev IsMiss : A → Cache V → Type 0
  IsMiss args c = (key : String) → raw_key args ≡ some key → Dict.get c.store (sha256 key) ≡ none

  abbrev IsFresh : Outcome V → Outcome V × Cache V → Cache V → Type 0
  IsFresh o p c = (p.0 ≡ o) × ((e : String) → o ≡ raised e → p ≡ (raised e, c))

  compute-IsFresh :
      (now : ℕ) (key : String) (o : Outcome V) (c : Cache V)
      → IsFresh o (compute ttl_seconds maxsize namespace now key o c) c
  unfolding compute
  compute-IsFresh now key (returned v) c = (refl, (λ e h. absurd (ground (arith, h))))
  compute-IsFresh now key (raised e) c = (refl, (λ f h. ap (λ o. (o, c)) h))

  lookup-miss :
      (now : ℕ) (key : String) (c : Cache V)
      → Dict.get c.store key ≡ none
      → lookup ttl_seconds maxsize namespace now key c ≡ (none, c)
  unfolding lookup
  lookup-miss now key c h = rw (h, lookup) refl

  keyed_call-IsFresh :
      (start finish : ℕ) (args : A) (key : String) (c : Cache V)
      → Dict.get c.store key ≡ none
      → IsFresh
          (func args)
          (keyed_call ttl_seconds maxsize namespace raw_key sha256 func start finish args key c)
          c
  unfolding keyed_call
  keyed_call-IsFresh start finish args key c h =
      subst
        (λ p.
          IsFresh (func args)
            (elim p.0 [
              | some v ↦ (returned v, p.1)
              | none ↦ compute ttl_seconds maxsize namespace finish key (func args) p.1
            ])
            c)
        (sym (lookup-miss start key c h)) (compute-IsFresh finish key (func args) c)

  wrapper-IsFresh :
      (start finish : ℕ) (args : A) (c : Cache V)
      → IsMiss args c
      → IsFresh
          (func args)
          (wrapper ttl_seconds maxsize namespace raw_key sha256 func start finish args c)
          c
  unfolding wrapper key_of
  wrapper-IsFresh start finish args c miss = elim (Option-cases (raw_key args)) [
    | inl e ↦ rw (e, wrapper, key_of) (refl, (λ f h. ap (λ o. (o, c)) h))
    | inr (key, e) ↦
        rw (e, wrapper, key_of) (keyed_call-IsFresh start finish args (sha256 key) c (miss key e))
  ]

module _ (raw_key : ParseArgs → Option String) (sha256 : String → String)
    (do_parse : List FoodMeta → String → Option ℕ → Parsed ParseOrderResponse) where
  answered_with :
      (r : ParseOrderResponse) (p : Parsed ParseOrderResponse) (o : Outcome ParseOrderResponse)
      (c : Cache ParseOrderResponse)
      → o ≡ returned r
      → (parse_answer p o c).0 ≡ answer r
  unfolding parse_answer
  answered_with r p o c h = rw h refl

  refused :
      (e : String) (c : Cache ParseOrderResponse)
      → ◌≡◌ {A = Answer ParseOrderResponse × Cache ParseOrderResponse}
          (parse_error (value_error e) e, c)
          (http_error (if starts_with e "LLM_REFUSED" then 422 else 400) e, c)
  unfolding parse_error
  refused e c = elim (Bool-cases (starts_with e "LLM_REFUSED")) [
    | inl h ↦ rw (h, parse_error) refl
    | inr h ↦ rw (h, parse_error) refl
  ]

  -- The cache has no entry for the request.
  abbrev pub IsMissing : List FoodMeta → String → Option ℕ → Cache ParseOrderResponse → Type 0
  IsMissing menu said hint c =
      let (size, first) = parse_signature raw_key sha256 do_parse menu in
      (key : String)
      → raw_key (said, hint, size, first) ≡ some key
      → Dict.get c.store (sha256 key) ≡ none

  -- With a menu, a client of the language model and no entry for the request, the parser runs. What it
  -- returns is answered. What it raises is answered with the status 422 when it is a `ValueError` by
  -- which the model refused, 400 when it is another `ValueError` and 502 otherwise, and the cache stays
  -- as it was, so that a failure is never served again.
  pub parse_order_lem :
      (start finish : ℕ) (menu : List FoodMeta) (said : String) (hint : Option ℕ)
      (c : Cache ParseOrderResponse)
      → is_empty menu ≡ false
      → IsMissing menu said hint c
      → let got = parse_order raw_key sha256 do_parse start finish true menu said hint c in
        ((r : ParseOrderResponse) → do_parse menu said hint ≡ ok r → got.0 ≡ answer r)
        × ((e : String)
            → do_parse menu said hint ≡ value_error e
            → got ≡ (http_error (if starts_with e "LLM_REFUSED" then 422 else 400) e, c))
        × ((e : String)
            → do_parse menu said hint ≡ crashed e
            → got ≡ (http_error 502 (join "" ("AI_UPSTREAM_ERROR: " ∷ e ∷ [])), c))
  unfolding parse_order
  parse_order_lem start finish menu said hint c full miss =
      let (value, failure) =
        wrapper-IsFresh 300 256 "parser.parse_order" raw_key sha256
          (λ (args : ParseArgs). outcome_of (do_parse menu args.0 args.1)) start finish
          (
            said,
            hint,
            (parse_signature raw_key sha256 do_parse menu).0,
            (parse_signature raw_key sha256 do_parse menu).1,
          )
          c miss in
      (
        (λ r h. rw (full, parse_order) (answered_with r _ _ _ (value ∙ ap outcome_of h))),
        (λ e h.
            rw (full, parse_order)
              (ap (λ o. parse_answer (do_parse menu said hint) o.0 o.1)
                  (failure e (ap outcome_of h))
                ∙ ap (λ p. (parse_error p e, c)) h
                ∙ refused e c)),
        (λ e h.
            rw (full, parse_order)
              (ap (λ o. parse_answer (do_parse menu said hint) o.0 o.1)
                  (failure e (ap outcome_of h))
                ∙ ap (λ p. (parse_error p e, c)) h)),
      )
