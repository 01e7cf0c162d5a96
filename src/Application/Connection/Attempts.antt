-- ===== src/Application/Connection/Attempts.antt =====
-- mt5_agent/application/connection_service.py: how often `ensure_connected` tries and when it stops.
use llm_mt5_agent.Prelude.{
  leb, leb→le, ℕ, zero, suc, ◌+◌, ◌≤◌, ◌<◌, ◌-◌, ◌≡◌, refl, true, false, List, [], ◌∷◌, length,
  length-append, ltb, Bool-cases, inl, inr, arith,
}
use llm_mt5_agent.Python.Errors.{Exception, Result, ok, raise, is_mt5_error}
use llm_mt5_agent.Python.Bind.{Returns}
use llm_mt5_agent.Python.Float.{Float, ◌<?◌, lit}
use llm_mt5_agent.Domain.Terminal.{ConnectionHealth}
use llm_mt5_agent.Application.Connection.{
  RetryPolicy, Port, Link, Attempt, connected, failed, crashed, sort_error, sort_health,
  after_connect, Step, done, retry, continue, no_attempt, delay_for, capped, sleep, pause, paused,
  next, attempts, ensure_connected,
}

-- The class of an exception decides how its attempt ends.
abbrev Sorted : Attempt → Type 0
Sorted (connected health) = health.connected ≡ true
Sorted (failed e) = is_mt5_error e.class ≡ true
Sorted (crashed e) = is_mt5_error e.class ≡ false

sort_error-Sorted : (e : Exception) → Sorted (sort_error e)
unfolding sort_error
sort_error-Sorted e = elim (Bool-cases (is_mt5_error e.class)) [ inl h ↦ rw h h | inr h ↦ rw h h ]

sort_health-Sorted : (health : Result ConnectionHealth) → Sorted (sort_health health)
unfolding sort_health
sort_health-Sorted (raise e) = sort_error-Sorted e
sort_health-Sorted (ok health) = elim (Bool-cases health.connected) [
  | inl h ↦ rw h refl
  | inr h ↦ rw h refl
]

after_connect-Sorted :
    {W : Type 0} (port : Port W) (answer : Result (Unit {0}) × W)
    → Sorted (after_connect port answer).0
unfolding after_connect
after_connect-Sorted port (raise e, w) = sort_error-Sorted e
after_connect-Sorted port (ok _, w) = sort_health-Sorted (port.check_health w).0

-- An `MT5Error` is only raised if `P`.
abbrev pub GivesUp : {A : Type 0} → Result A → Type 0 → Type 0
GivesUp (ok a) P = Unit
GivesUp (raise e) P = is_mt5_error e.class ≡ true → P

not_first : (n : ℕ) → ltb (n + 1) 1 ≡ false
not_first n = ground arith

below : (m n : ℕ) → ltb m n ≡ true → n ≤ m → ⊥
below m n h l = ground arith

not_leb : (m n : ℕ) → leb m n ≡ false → n < m
not_leb m n h = ground arith

sleep-length :
    {F : Type 0} ⦃fl : Float F⦄ (slept : List F) (d : F) → length (sleep slept d) ≤ length slept + 1
unfolding sleep
sleep-length ⦃fl⦄ slept d = elim (Bool-cases (lit 0 <? d)) [
  | inl h ↦ rw h (omega (arith, length-append slept (d ∷ [])))
  | inr h ↦ rw h (omega arith)
]

module _ {F : Type 0} ⦃fl : Float F⦄ (r : RetryPolicy F) where
  abbrev delay : ℕ → F
  delay tries =
      capped r.max_delay_seconds (fl.mul r.delay_seconds (fl.pow r.backoff_factor (tries + 1 - 1)))

  pause-ok :
      (tries : ℕ) (slept : List F)
      → (after : List F) × (pause r (tries + 1) slept ≡ ok after)
        × (length after ≤ length slept + 1)
        × (r.max_attempts ≤ tries + 1 → length after ≡ length slept)
  unfolding pause delay_for sleep
  pause-ok tries slept = elim (Bool-cases (ltb (tries + 1) r.max_attempts)) [
    | inr h ↦ (slept, rw h refl, omega arith, λ _. refl)
    | inl h ↦ (
      sleep slept (delay tries),
      rw (h, not_first tries) refl,
      sleep-length slept (delay tries),
      λ l. absurd (below (tries + 1) r.max_attempts h l),
    )
  ]

module _ {F W : Type 0} ⦃fl : Float F⦄ (r : RetryPolicy F) where
  -- What one turn of the loop leaves: one attempt more, and at most one delay, none after the last.
  Turn : Link F W → Step F W → Type 0
  Turn link (done (ok health) l) =
      (health.connected ≡ true) × (l.tries ≡ link.tries + 1) × (length l.slept ≡ length link.slept)
  Turn link (done (raise e) l) =
      (is_mt5_error e.class ≡ false)
      × (l.tries ≡ link.tries + 1)
      × (length l.slept ≡ length link.slept)
  Turn link (retry e l) =
      (is_mt5_error e.class ≡ true)
      × (l.tries ≡ link.tries + 1)
      × (length l.slept ≤ length link.slept + 1)
      × (r.max_attempts ≤ l.tries → length l.slept ≡ length link.slept)

  next-Turn : (link : Link F W) (x : Attempt × W) → Sorted x.0 → Turn link (next r link x)
  unfolding next Turn paused
  next-Turn link (connected health, w) h = (h, refl, refl)
  next-Turn link (crashed e, w) h = (h, refl, refl)
  next-Turn link (failed e, w) h =
      let (slept, e_ok, longer, last) = pause-ok r link.tries link.slept in
      rw e_ok (h, refl, longer, last)

  -- The state of the loop, with `left` attempts to come.
  record InLoop (left : ℕ) (link : Link F W) : Type 0 where
    counted : link.tries + left ≡ r.max_attempts
    rested : length link.slept ≤ link.tries
    spared : length link.slept + 1 ≤ r.max_attempts

  -- What the loop leaves at the end.
  unfoldable pub Ended : Result ConnectionHealth × Link F W → Type 0
  Ended (answer, link) =
      (link.tries ≤ r.max_attempts)
      × (length link.slept + 1 ≤ r.max_attempts)
      × Returns (λ health. health.connected ≡ true) answer
      × GivesUp answer (link.tries ≡ r.max_attempts)

  Turn-Ended :
      (left : ℕ) (link : Link F W) (step : Step F W)
      (again : Exception → Link F W → Result ConnectionHealth × Link F W)
      → InLoop (suc left) link
      → Turn link step
      → ((e : Exception) (l : Link F W)
          → is_mt5_error e.class ≡ true
          → InLoop left l
          → Ended (again e l))
      → Ended (continue step (λ answer l. (answer, l)) again)
  unfolding continue Turn Ended
  Turn-Ended left link (done (ok health) l) again i (h, n, s) k =
      (omega (arith, n, i.counted), omega (arith, s, i.spared), h, tt)
  Turn-Ended left link (done (raise e) l) again i (h, n, s) k =
      (omega (arith, n, i.counted), omega (arith, s, i.spared), tt, λ m. cc)
  Turn-Ended left link (retry e l) again i (h, n, s, last) k = k e l h (record {
    counted = omega (arith, n, i.counted);
    rested = omega (arith, n, s, i.rested);
    spared = elim (Bool-cases (leb r.max_attempts l.tries)) [
      | inl b ↦ omega (arith, last (leb→le _ _ b), i.spared)
      | inr b ↦ omega (arith, not_leb _ _ b, n, s, i.rested)
    ];
  })

  attempts-Ended :
      (port : Port W) (left : ℕ) (last : Exception) (link : Link F W)
      → InLoop left link
      → Ended (attempts r port left last link)
  unfolding attempts Ended
  attempts-Ended port zero last link i =
      (omega (arith, i.counted), i.spared, tt, λ _. omega (arith, i.counted))
  attempts-Ended port (suc left) last link i =
      Turn-Ended left link (next r link (after_connect port (port.connect link.world))) _ i
        (next-Turn link _ (after_connect-Sorted port (port.connect link.world)))
        (λ e l _ j. attempts-Ended port left e l j)

  -- For a policy of at least one attempt, `ensure_connected` ends after at most `max_attempts`
  -- attempts, with fewer delays than that; it returns only a connected health record, and it raises
  -- an `MT5Error` only after all the attempts, whatever the port answers.
  pub ensure_connected-Ended :
      (port : Port W) (w : W) → 1 ≤ r.max_attempts → Ended (ensure_connected r port w)
  unfolding ensure_connected
  ensure_connected-Ended port w l =
      attempts-Ended port r.max_attempts no_attempt _
        (record { counted = omega arith; rested = omega arith; spared = l })
