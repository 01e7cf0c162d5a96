-- ===== src/Application/Services/History/Complete.antt =====
-- mt5_agent/application/history_service.py: no position with deals is left out of the summaries.
use llm_mt5_agent.Prelude.{
  All, any, filter, map, leb, not, ℕ, ◌==◌, ◌||◌, ◌≡◌, ◌∙◌, sym, refl, true, false, inl, inr,
  Bool-cases, List, [], ◌∷◌, arith,
}
use llm_mt5_agent.Python.Float.{Float}
use llm_mt5_agent.Domain.Trading.{Deal}
use llm_mt5_agent.Application.Services.History.{
  Bucket, TradeResult, grouped, insert_result, sorted_results, result_of, closed_results,
}
use llm_mt5_agent.Application.Services.History.Closed.{deals_of, lookup, lookup-grouped, Fresh}

module _ {F : Type 0} where
  All-inserted :
      (P : TradeResult F → Type 0) (r : TradeResult F) (xs : List (TradeResult F))
      → All P (insert_result r xs)
      → P r × All P xs
  unfolding insert_result
  All-inserted P r [] h = h
  All-inserted P r (x ∷ xs) h = elim (Bool-cases (leb r.position_id x.position_id)) [
    | inl e ↦ rw e at h
    | inr e ↦
        let (q, rest) : P x × All P (insert_result r xs) = rw e at h in
        let (p, later) = All-inserted P r xs rest in (p, (q, later))
  ]

  All-unsorted :
      (P : TradeResult F → Type 0) (xs : List (TradeResult F))
      → All P (sorted_results xs)
      → All P xs
  unfolding sorted_results
  All-unsorted P [] h = tt
  All-unsorted P (x ∷ xs) h =
      let (p, rest) = All-inserted P x (sorted_results xs) h in (p, All-unsorted P xs rest)

  any-none :
      (i : ℕ) (rs : List (TradeResult F))
      → any (λ r. r.position_id == i) rs ≡ false
      → All (λ r. (r.position_id == i) ≡ false) rs
  any-none i [] h = tt
  any-none i (r ∷ rs) h = elim (Bool-cases (r.position_id == i)) [
    | inl e ↦ let no : true ≡ false = rw e at h in cc
    | inr e ↦ (e, any-none i rs (rw e at h))
  ]

  lookup-none : (i : ℕ) (bs : List (Bucket F)) → Fresh i bs → lookup i bs ≡ []
  lookup-none i [] h = refl
  lookup-none i (b ∷ bs) (e, h) = rw e (lookup-none i bs h)

module _ {F : Type 0} ⦃fl : Float F⦄ where
  unsummed :
      (i : ℕ) (bs : List (Bucket F))
      → (i == 0) ≡ false
      → All
          (λ r. (r.position_id == i) ≡ false)
          (map result_of (filter (λ b. not (b.position_id == 0)) bs))
      → Fresh i bs
  unfolding result_of
  unsummed i [] n h = tt
  unsummed i (b ∷ bs) n h = elim (Bool-cases (b.position_id == 0)) [
    | inl z ↦
        let other : (b.position_id == i) ≡ false = ground arith in
        (other, unsummed i bs n (rw z at h))
    | inr z ↦
        let (e, rest) : ((b.position_id == i) ≡ false)
            × All (λ r. (r.position_id == i) ≡ false)
                (map result_of (filter (λ b. not (b.position_id == 0)) bs)) =
          rw z at h in
        (e, unsummed i bs n rest)
  ]

  -- A position without a summary has no deals.
  unsummarised :
      (i : ℕ) (deals : List (Deal F))
      → (i == 0) ≡ false
      → any (λ r. r.position_id == i) (closed_results deals) ≡ false
      → deals_of i deals ≡ []
  unfolding closed_results
  unsummarised i deals n h =
      sym (lookup-grouped i deals [])
      ∙ lookup-none i (grouped [] deals) (
          unsummed i (grouped [] deals) n
            (All-unsorted (λ r. (r.position_id == i) ≡ false) _ (any-none i _ h)))

  -- The position of a deal is 0 or has a summary.
  abbrev pub IsSummed : List (TradeResult F) → Deal F → Type 0
  IsSummed rs d = ((d.position_id == 0) || any (λ r. r.position_id == d.position_id) rs) ≡ true

  IsSummed-each :
      (deals cs : List (Deal F))
      → ((i : ℕ) → deals_of i deals ≡ [] → deals_of i cs ≡ [])
      → All (IsSummed (closed_results deals)) cs
  IsSummed-each deals [] w = tt
  IsSummed-each deals (c ∷ cs) w = (head, IsSummed-each deals cs rest)
    where
      rest : (i : ℕ) → deals_of i deals ≡ [] → deals_of i cs ≡ []
      rest i e = elim (Bool-cases (c.position_id == i)) [
        | inl k ↦ let hit : (c ∷ deals_of i cs) ≡ [] = rw k at (w i e) in cc
        | inr k ↦ rw k at (w i e)
      ]

      head : IsSummed (closed_results deals) c
      head = elim (Bool-cases (c.position_id == 0)) [
        | inl z ↦ rw z refl
        | inr z ↦
            elim (Bool-cases (any (λ r. r.position_id == c.position_id) (closed_results deals))) [
              | inl y ↦ rw (z, y) refl
              | inr n ↦
                  let own : (c.position_id == c.position_id) ≡ true = ground arith in
                  let hit : (c ∷ deals_of c.position_id cs) ≡ [] =
                    rw own at (w c.position_id (unsummarised c.position_id deals z n)) in
                  cc
            ]
      ]

  pub closed_results-IsSummed :
      (deals : List (Deal F)) → All (IsSummed (closed_results deals)) deals
  closed_results-IsSummed deals = IsSummed-each deals deals (λ i e. e)
