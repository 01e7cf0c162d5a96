-- ===== src/Application/Services/History/Summaries.antt =====
-- mt5_agent/application/history_service.py: the closed-trade summaries, sorted.
use llm_mt5_agent.Prelude.{
  leb, ◌==◌, Bool-cases, if-cases, length, filter, All, ℕ, ◌<◌, ◌≡◌, sym, ap, ◌∙◌, inl, inr, false,
  not, List, [], ◌∷◌, map, arith,
}
use llm_mt5_agent.Python.Float.{Float}
use llm_mt5_agent.Domain.Trading.{Deal, TradeResult}
use llm_mt5_agent.Application.Services.History.{
  Bucket, bucket_deals, grouped, insert_result, sorted_results, result_of, closed_results,
}
use llm_mt5_agent.Application.Services.History.Complete.{IsSummed, closed_results-IsSummed}
use llm_mt5_agent.Application.Services.History.Closed.{
  deals_of, lookup, lookup-grouped, Fresh, Distinct, Distinct-grouped, lookup-own,
}

-- Strictly ascending positions.
unfoldable pub Ascends : {F : Type 0} → List (TradeResult F) → Type 0
Ascends [] = Unit
Ascends (r ∷ rs) = All (λ x. r.position_id < x.position_id) rs × Ascends rs

module _ {F : Type 0} where
  All-insert :
      (P : TradeResult F → Type 0) (r : TradeResult F) (xs : List (TradeResult F))
      → P r
      → All P xs
      → All P (insert_result r xs)
  unfolding insert_result
  All-insert P r [] p h = (p, tt)
  All-insert P r (x ∷ xs) p (q, h) =
      if-cases (leb r.position_id x.position_id) (All P) (λ _. (p, (q, h)))
        (λ _. (q, All-insert P r xs p h))

  All-sorted :
      (P : TradeResult F → Type 0) (xs : List (TradeResult F))
      → All P xs
      → All P (sorted_results xs)
  unfolding sorted_results
  All-sorted P [] h = tt
  All-sorted P (x ∷ xs) (p, h) = All-insert P x (sorted_results xs) p (All-sorted P xs h)

  abbrev New : ℕ → List (TradeResult F) → Type 0
  New i rs = All (λ r. (r.position_id == i) ≡ false) rs

  abbrev Apart : List (TradeResult F) → Type 0
  Apart [] = Unit
  Apart (r ∷ rs) = New r.position_id rs × Apart rs

  later_above :
      (i j : ℕ) (xs : List (TradeResult F))
      → i < j
      → All (λ x. j < x.position_id) xs
      → All (λ x. i < x.position_id) xs
  later_above i j [] lt h = tt
  later_above i j (x ∷ xs) lt (k, h) = (omega arith, later_above i j xs lt h)

  insert-Ascends :
      (r : TradeResult F) (xs : List (TradeResult F))
      → New r.position_id xs
      → Ascends xs
      → Ascends (insert_result r xs)
  unfolding insert_result Ascends
  insert-Ascends r [] n h = (tt, tt)
  insert-Ascends r (x ∷ xs) (e, n) (a, h) =
      if-cases (leb r.position_id x.position_id) Ascends
        (λ le.
          let lt : r.position_id < x.position_id = ground arith in
          ((lt, later_above r.position_id x.position_id xs lt a), (a, h)))
        (λ gt.
          let lt : x.position_id < r.position_id = ground arith in
          (All-insert (λ y. x.position_id < y.position_id) r xs lt a, insert-Ascends r xs n h))

  sorted-Ascends : (xs : List (TradeResult F)) → Apart xs → Ascends (sorted_results xs)
  unfolding sorted_results Ascends
  sorted-Ascends [] h = tt
  sorted-Ascends (x ∷ xs) (n, h) =
      insert-Ascends x (sorted_results xs)
        (All-sorted (λ r. (r.position_id == x.position_id) ≡ false) xs n) (sorted-Ascends xs h)

module _ {F : Type 0} ⦃fl : Float F⦄ where
  -- The summary of a position adds up all of its deals and no others.
  pub record Accounts (deals : List (Deal F)) (r : TradeResult F) : Type 0 where
    pub is_position : (r.position_id == 0) ≡ false
    pub volume : r.volume ≡ fl.sum (map (λ d. d.volume) (deals_of r.position_id deals))
    pub profit : r.profit ≡ fl.sum (map (λ d. d.profit) (deals_of r.position_id deals))
    pub commission : r.commission ≡ fl.sum (map (λ d. d.commission) (deals_of r.position_id deals))
    pub swap : r.swap ≡ fl.sum (map (λ d. d.swap) (deals_of r.position_id deals))
    pub fee : r.fee ≡ fl.sum (map (λ d. d.fee) (deals_of r.position_id deals))
    pub number : r.deals ≡ length (deals_of r.position_id deals)

  result_of-Accounts :
      (deals : List (Deal F)) (b : Bucket F)
      → (b.position_id == 0) ≡ false
      → bucket_deals b ≡ deals_of b.position_id deals
      → Accounts deals (result_of b)
  unfolding result_of
  result_of-Accounts deals b n e = record {
    is_position = n;
    volume = ap (λ xs. fl.sum (map (λ d. d.volume) xs)) e;
    profit = ap (λ xs. fl.sum (map (λ d. d.profit) xs)) e;
    commission = ap (λ xs. fl.sum (map (λ d. d.commission) xs)) e;
    swap = ap (λ xs. fl.sum (map (λ d. d.swap) xs)) e;
    fee = ap (λ xs. fl.sum (map (λ d. d.fee) xs)) e;
    number = ap length e;
  }

  -- The buckets of positions, summed.
  abbrev summed : List (Bucket F) → List (TradeResult F)
  summed bs = map result_of (filter (λ b. not (b.position_id == 0)) bs)

  summed-Accounts :
      (deals : List (Deal F)) (bs : List (Bucket F))
      → All (λ b. bucket_deals b ≡ deals_of b.position_id deals) bs
      → All (Accounts deals) (summed bs)
  summed-Accounts deals [] h = tt
  summed-Accounts deals (b ∷ bs) (e, h) = elim (Bool-cases (b.position_id == 0)) [
    | inl z ↦ rw z (summed-Accounts deals bs h)
    | inr n ↦ rw n (result_of-Accounts deals b n e, summed-Accounts deals bs h)
  ]

  New-summed : (i : ℕ) (bs : List (Bucket F)) → Fresh i bs → New i (summed bs)
  unfolding result_of
  New-summed i [] h = tt
  New-summed i (b ∷ bs) (e, h) = elim (Bool-cases (b.position_id == 0)) [
    | inl z ↦ rw z (New-summed i bs h)
    | inr n ↦ rw n (e, New-summed i bs h)
  ]

  Apart-summed : (bs : List (Bucket F)) → Distinct bs → Apart (summed bs)
  unfolding result_of
  Apart-summed [] h = tt
  Apart-summed (b ∷ bs) (e, h) = elim (Bool-cases (b.position_id == 0)) [
    | inl z ↦ rw z (Apart-summed bs h)
    | inr n ↦ rw n (New-summed b.position_id bs e, Apart-summed bs h)
  ]

  own_deals :
      (deals : List (Deal F)) (bs : List (Bucket F))
      → ((i : ℕ) → lookup i bs ≡ deals_of i deals)
      → (cs : List (Bucket F)) → All (λ b. lookup b.position_id bs ≡ bucket_deals b) cs
      → All (λ b. bucket_deals b ≡ deals_of b.position_id deals) cs
  own_deals deals bs l [] h = tt
  own_deals deals bs l (c ∷ cs) (e, h) = (sym e ∙ l c.position_id, own_deals deals bs l cs h)

  closed_results-Ascends : (deals : List (Deal F)) → Ascends (closed_results deals)
  unfolding closed_results
  closed_results-Ascends deals =
      let bs = grouped [] deals in
      sorted-Ascends (summed bs) (Apart-summed bs (Distinct-grouped deals [] tt))

  summaries-Accounts : (deals : List (Deal F)) → All (Accounts deals) (closed_results deals)
  unfolding closed_results
  summaries-Accounts deals =
      let bs = grouped [] deals in
      All-sorted (Accounts deals) (summed bs) (
        summed-Accounts deals bs (
          own_deals deals bs (λ i. lookup-grouped i deals []) bs
            (lookup-own bs (Distinct-grouped deals [] tt))))

  -- The summaries of closed trades are of distinct positions other than 0, in ascending order, and
  -- each adds up the volume, the profit, the commission, the swap and the fee of all deals of its
  -- position and of no others, with their number; and each deal whose position is not 0 has a summary
  -- of its position.
  pub closed_results-Accounts :
      (deals : List (Deal F))
      → Ascends (closed_results deals)
        × All (Accounts deals) (closed_results deals)
        × All (IsSummed (closed_results deals)) deals
  closed_results-Accounts deals =
      (closed_results-Ascends deals, summaries-Accounts deals, closed_results-IsSummed deals)
