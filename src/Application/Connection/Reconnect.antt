-- ===== src/Application/Connection/Reconnect.antt =====
-- mt5_agent/application/connection_service.py: what `reconnect` has verified when it returns.
use llm_mt5_agent.Prelude.{◌≤◌, ◌≡◌, refl, ◌⊎◌, inl, inr, some}
use llm_mt5_agent.Python.Errors.{Result, ok, raise}
use llm_mt5_agent.Python.Float.{Float}
use llm_mt5_agent.Domain.Terminal.{ConnectionHealth}
use llm_mt5_agent.Application.Connection.{
  ensure_connected, RetryPolicy, Port, Link, verified, reconnect,
}
use llm_mt5_agent.Application.Connection.Attempts.{Ended, ensure_connected-Ended}

module _ {F W : Type 0} ⦃fl : Float F⦄ (r : RetryPolicy F) (port : Port W) (w : W)
    (check : W → Result (Unit {0}) × W) where
  -- What the attempts answer, once the port is disconnected.
  abbrev pub attempted : Result ConnectionHealth × Link F W
  attempted = ensure_connected r port (port.disconnect w).1

  -- The check ran once, on the world that a connected `ensure_connected` left after the disconnect, and its answer and the
  -- world it left are those of the call.
  pub record Checked (answer : Result (Unit {0})) (link : Link F W) : Type 0 where
    pub health : ConnectionHealth
    pub before : Link F W
    pub reached : attempted ≡ (ok health, before)
    pub ended : Ended r (ok health, before)
    pub checked : check before.world ≡ (answer, link.world)
    pub same_tries : link.tries ≡ before.tries

  -- A health record is returned only after the check passed; what is raised is from the attempts or
  -- from the check.
  abbrev pub Verified : Result ConnectionHealth × Link F W → Type 0
  Verified (ok health, link) = (passed : Checked (ok tt) link) × (passed.health ≡ health)
  Verified (raise e, link) =
      ((attempted ≡ (raise e, link)) × Ended r (raise e, link)) ⊎ Checked (raise e) link

  verified-Verified :
      (x : Result ConnectionHealth × Link F W)
      → attempted ≡ x
      → Ended r x
      → Verified (verified (some check) x)
  unfolding verified
  verified-Verified (raise e, link) q h = inl (q, h)
  verified-Verified (ok health, link) q h = checked_lem (check link.world) refl
    where
      checked_lem :
          (answer : Result (Unit {0}) × W)
          → check link.world ≡ answer
          → Verified (
            elim answer.0 [ raise e ↦ raise e | ok _ ↦ ok health ],
            record link { world = answer.1 },
          )
      checked_lem (ok _, w) k = (
        record {
          health = health;
          before = link;
          reached = q;
          ended = h;
          checked = k;
          same_tries = refl;
        },
        refl,
      )
      checked_lem (raise e, w) k = inr (record {
        health = health;
        before = link;
        reached = q;
        ended = h;
        checked = k;
        same_tries = refl;
      })

  -- For a policy of at least one attempt, whatever the port answers, `reconnect` with a check returns
  -- a health record only if it is the one that `ensure_connected` returned after the disconnect, with
  -- at most `max_attempts` attempts and connected, and the check then passed on the world it left;
  -- where `ensure_connected` raises, so does the call, without a check; if the check raises, so does the call, with its
  -- exception; and nothing happens to the world after the check.
  pub reconnect-Verified : 1 ≤ r.max_attempts → Verified (reconnect r port (some check) w)
  unfolding reconnect
  reconnect-Verified l =
      verified-Verified _ refl (ensure_connected-Ended r port (port.disconnect w).1 l)
