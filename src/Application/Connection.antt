-- ===== src/Application/Connection.antt =====
-- mt5_agent/application/connection_service.py: the retry policy and the reconnect workflow.
pub mod Attempts
pub mod Reconnect
pub mod Adapted
mod Tests
use llm_mt5_agent.Prelude.{
  ℕ, zero, suc, ◌+◌, ◌-◌, String, ◌<>◌, Bool, true, false, not, Option, none, some, List, [], ◌∷◌,
  ◌++◌, ltb, if◌then◌else◌,
}
use llm_mt5_agent.Python.Errors.{
  Exception, ExceptionClass, Result, ok, raise, raise_if, value_error, mt5_error, is_mt5_error,
  ◌>>=◌, ◌>>◌,
}
use llm_mt5_agent.Python.Float.{Float, ◌<?◌, lit}
use llm_mt5_agent.Domain.Market.{min_of}
use llm_mt5_agent.Domain.Terminal.{ConnectionHealth}

pub record RetryPolicy (F : Type 0) : Type 0 where
  pub max_attempts : ℕ
  pub delay_seconds : F
  pub backoff_factor : F
  pub max_delay_seconds : Option F

-- The three methods of `MT5ConnectionPort` that the service calls, over the outside world; `connect`
-- is called with the configuration and the credentials at hand.
pub record Port (W : Type 0) : Type 0 where
  pub connect : W → Result (Unit {0}) × W
  pub check_health : W → Result ConnectionHealth × W
  pub disconnect : W → Result (Unit {0}) × W

-- What the service has done: the world, the attempts made and the delays slept.
pub record Link (F W : Type 0) : Type 0 where
  pub world : W
  pub tries : ℕ
  pub slept : List F

-- How one attempt ends: `failed` with an `MT5Error`, `crashed` with another exception.
pub data Attempt : Type 0 where
  connected : ConnectionHealth → Attempt
  failed crashed : Exception → Attempt

-- `except MT5Error`
unfoldable pub sort_error : Exception → Attempt
sort_error e = if is_mt5_error e.class then failed e else crashed e

-- The health record that follows a connect.
unfoldable pub sort_health : Result ConnectionHealth → Attempt
sort_health (raise e) = sort_error e
sort_health (ok health) =
    if health.connected
    then connected health
    else failed (record { class = mt5_error; message = "health check failed: " <> health.error })

-- What follows `connect` in the body of the `try` of `ensure_connected`.
unfoldable pub after_connect : {W : Type 0} → Port W → Result (Unit {0}) × W → Attempt × W
after_connect port (raise e, w) = (sort_error e, w)
after_connect port (ok _, w) = let (health, w') = port.check_health w in (sort_health health, w')

-- How the loop goes on: it ends with an answer, or tries again with the last error.
pub data Step (F W : Type 0) : Type 0 where
  done : Result ConnectionHealth → Link F W → Step F W
  retry : Exception → Link F W → Step F W

unfoldable pub continue :
    {F W A : Type 0}
    → Step F W
    → (Result ConnectionHealth → Link F W → A)
    → (Exception → Link F W → A)
    → A
continue (done answer link) stop again = stop answer link
continue (retry e link) stop again = again e link

-- The `AssertionError` of `assert last_error is not None`, which needs a policy without attempts.
abbrev pub no_attempt : Exception
no_attempt = record { class = ExceptionClass.other "AssertionError"; message = "" }

module _ {F : Type 0} ⦃fl : Float F⦄ where
  -- `x is not None and x < 0`
  abbrev pub set_negative : Option F → Bool
  set_negative none = false
  set_negative (some x) = x <? lit 0

  unfoldable pub new_retry_policy : RetryPolicy F → Result (RetryPolicy F)
  new_retry_policy r = do
    raise_if (ltb r.max_attempts 1) "max_attempts must be >= 1"
    raise_if (r.delay_seconds <? lit 0) "delay_seconds must be >= 0"
    raise_if (r.backoff_factor <? lit 1) "backoff_factor must be >= 1.0"
    raise_if (set_negative r.max_delay_seconds) "max_delay_seconds must be >= 0"
    ok r

  -- `min(delay, self.max_delay_seconds)` where that is set
  unfoldable pub capped : Option F → F → F
  capped none delay = delay
  capped (some limit) delay = min_of delay limit

  -- `delay_for(attempt)`; the one caller counts from 1, so the check of the attempt passes.
  unfoldable pub delay_for : RetryPolicy F → ℕ → Result F
  delay_for r attempt = do
    raise_if (ltb attempt 1) "attempt must be >= 1"
    ok (capped r.max_delay_seconds (fl.mul r.delay_seconds (fl.pow r.backoff_factor (attempt - 1))))

  -- `if delay > 0: time.sleep(delay)`
  unfoldable pub sleep : List F → F → List F
  sleep slept delay = if lit 0 <? delay then slept ++ (delay ∷ []) else slept

  -- What follows a failed attempt, unless it was the last.
  unfoldable pub pause : RetryPolicy F → ℕ → List F → Result (List F)
  pause r attempt slept =
      if ltb attempt r.max_attempts
      then (delay_for r attempt >>= λ delay. ok (sleep slept delay))
      else ok slept

  -- An attempt has failed with `e` and the pause is over, or its delay raised.
  unfoldable pub paused : {W : Type 0} → Exception → Link F W → Result (List F) → Step F W
  paused e link (raise x) = done (raise x) link
  paused e link (ok slept) = retry e (record link { slept = slept })

  -- The body of the loop of `ensure_connected`, from the outcome of the `try`.
  unfoldable pub next : {W : Type 0} → RetryPolicy F → Link F W → Attempt × W → Step F W
  next r link (connected health, w) =
      done (ok health) (record link { world = w; tries = link.tries + 1 })
  next r link (crashed e, w) = done (raise e) (record link { world = w; tries = link.tries + 1 })
  next r link (failed e, w) =
      paused e (record link { world = w; tries = link.tries + 1 })
        (pause r (link.tries + 1) link.slept)

  -- The loop over the attempts, `left` of them to come; `last` is `last_error`.
  unfoldable pub attempts :
      {W : Type 0}
      → RetryPolicy F
      → Port W
      → ℕ
      → Exception
      → Link F W
      → Result ConnectionHealth × Link F W
  attempts r port zero last link = (raise last, link)
  attempts r port (suc left) last link =
      continue (next r link (after_connect port (port.connect link.world)))
        (λ answer l. (answer, l)) (λ e l. attempts r port left e l)

  -- `ensure_connected(config, credentials)`
  unfoldable pub ensure_connected :
      {W : Type 0} → RetryPolicy F → Port W → W → Result ConnectionHealth × Link F W
  ensure_connected r port w =
      attempts r port r.max_attempts no_attempt (record { world = w; tries = 0; slept = [] })

  -- The end of `reconnect`: `verify`, if given, runs on what `ensure_connected` leaves and may raise.
  unfoldable pub verified :
      {W : Type 0}
      → Option (W → Result (Unit {0}) × W)
      → Result ConnectionHealth × Link F W
      → Result ConnectionHealth × Link F W
  verified none x = x
  verified (some check) (raise e, link) = (raise e, link)
  verified (some check) (ok health, link) =
      let (answer, w) = check link.world in
      (elim answer [ raise e ↦ raise e | ok _ ↦ ok health ], record link { world = w })

  -- `reconnect(config, credentials, verify=verify)`: a failing disconnect does not stop it.
  unfoldable pub reconnect :
      {W : Type 0}
      → RetryPolicy F
      → Port W
      → Option (W → Result (Unit {0}) × W)
      → W
      → Result ConnectionHealth × Link F W
  reconnect r port verify w = verified verify (ensure_connected r port (port.disconnect w).1)
