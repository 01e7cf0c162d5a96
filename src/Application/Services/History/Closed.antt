-- ===== src/Application/Services/History/Closed.antt =====
-- mt5_agent/application/history_service.py: what the closed-trade summaries add up.
use llm_mt5_agent.Prelude.{
  ◌==◌, if◌then◌else◌, Bool-cases, if-cases, filter, All, ℕ, ◌≡◌, refl, sym, ap, ◌∙◌, inl, inr,
  true, false, List, [], ◌∷◌, ◌++◌, arith,
}
use llm_mt5_agent.Domain.Trading.{Deal}
use llm_mt5_agent.Application.Services.History.{Bucket, bucket_deals, add_deal, grouped}
use mathlib.Core.List.{append_assoc, append-nil}

module _ {F : Type 0} where
  -- The deals of a position, in their order.
  abbrev pub deals_of : ℕ → List (Deal F) → List (Deal F)
  deals_of i deals = filter (λ d. d.position_id == i) deals

  abbrev pub lookup : ℕ → List (Bucket F) → List (Deal F)
  lookup i [] = []
  lookup i (b ∷ bs) =
      let later = lookup i bs in if b.position_id == i then bucket_deals b else later

  lookup-add_deal :
      (i : ℕ) (d : Deal F) (bs : List (Bucket F))
      → lookup i (add_deal d bs) ≡ lookup i bs ++ deals_of i (d ∷ [])
  unfolding add_deal
  lookup-add_deal i d [] = refl
  lookup-add_deal i d (b ∷ bs) = elim (Bool-cases (b.position_id == d.position_id)) [
    | inl e ↦ elim (Bool-cases (b.position_id == i)) [
      | inl k ↦ let hit : (d.position_id == i) ≡ true = ground arith in rw (e, k, hit) refl
      | inr k ↦
          let miss : (d.position_id == i) ≡ false = ground arith in
          rw (e, k, miss) (sym (append-nil (lookup i bs)))
    ]
    | inr e ↦ elim (Bool-cases (b.position_id == i)) [
      | inl k ↦
          let miss : (d.position_id == i) ≡ false = ground arith in
          rw (e, k, miss) (sym (append-nil (bucket_deals b)))
      | inr k ↦ rw (e, k) (lookup-add_deal i d bs)
    ]
  ]

  deals_of-cons :
      (i : ℕ) (d : Deal F) (ds : List (Deal F))
      → deals_of i (d ∷ []) ++ deals_of i ds ≡ deals_of i (d ∷ ds)
  deals_of-cons i d ds = elim (Bool-cases (d.position_id == i)) [
    | inl e ↦ rw e refl
    | inr e ↦ rw e refl
  ]

  pub lookup-grouped :
      (i : ℕ) (ds : List (Deal F)) (bs : List (Bucket F))
      → lookup i (grouped bs ds) ≡ lookup i bs ++ deals_of i ds
  unfolding grouped
  lookup-grouped i [] bs = sym (append-nil (lookup i bs))
  lookup-grouped i (d ∷ ds) bs =
      lookup-grouped i ds (add_deal d bs)
      ∙ (ap (λ xs. xs ++ deals_of i ds) (lookup-add_deal i d bs)
          ∙ (append_assoc (lookup i bs) (deals_of i (d ∷ [])) (deals_of i ds)
              ∙ ap (λ xs. lookup i bs ++ xs) (deals_of-cons i d ds)))

  -- No two buckets are of one position.
  abbrev pub Fresh : ℕ → List (Bucket F) → Type 0
  Fresh i bs = All (λ b. (b.position_id == i) ≡ false) bs

  abbrev pub Distinct : List (Bucket F) → Type 0
  Distinct [] = Unit
  Distinct (b ∷ bs) = Fresh b.position_id bs × Distinct bs

  Fresh-add_deal :
      (i : ℕ) (d : Deal F) (bs : List (Bucket F))
      → (d.position_id == i) ≡ false
      → Fresh i bs
      → Fresh i (add_deal d bs)
  unfolding add_deal
  Fresh-add_deal i d [] n h = (n, tt)
  Fresh-add_deal i d (b ∷ bs) n (e, h) =
      if-cases (b.position_id == d.position_id) (Fresh i) (λ _. (e, h))
        (λ _. (e, Fresh-add_deal i d bs n h))

  Distinct-add_deal : (d : Deal F) (bs : List (Bucket F)) → Distinct bs → Distinct (add_deal d bs)
  unfolding add_deal
  Distinct-add_deal d [] h = (tt, tt)
  Distinct-add_deal d (b ∷ bs) (e, h) =
      if-cases (b.position_id == d.position_id) Distinct (λ _. (e, h))
        (λ n. (Fresh-add_deal b.position_id d bs (ground arith) e, Distinct-add_deal d bs h))

  pub Distinct-grouped :
      (ds : List (Deal F)) (bs : List (Bucket F)) → Distinct bs → Distinct (grouped bs ds)
  unfolding grouped
  Distinct-grouped [] bs h = h
  Distinct-grouped (d ∷ ds) bs h = Distinct-grouped ds (add_deal d bs) (Distinct-add_deal d bs h)

  -- Each of distinct buckets is found under its position.
  lookup-later :
      (b : Bucket F) (bs cs : List (Bucket F))
      → Fresh b.position_id cs
      → All (λ c. lookup c.position_id bs ≡ bucket_deals c) cs
      → All (λ c. lookup c.position_id (b ∷ bs) ≡ bucket_deals c) cs
  lookup-later b bs [] n h = tt
  lookup-later b bs (c ∷ cs) (e, n) (k, h) =
      let miss : (b.position_id == c.position_id) ≡ false = ground arith in
      (rw miss k, lookup-later b bs cs n h)

  pub lookup-own :
      (bs : List (Bucket F)) → Distinct bs → All (λ b. lookup b.position_id bs ≡ bucket_deals b) bs
  lookup-own [] h = tt
  lookup-own (b ∷ bs) (n, h) =
      let hit : (b.position_id == b.position_id) ≡ true = ground arith in
      (rw hit refl, lookup-later b bs bs n (lookup-own bs h))
