-- ===== src/Application/Connection/Adapted.antt =====
-- mt5_agent/application/connection_service.py over mt5_agent/infrastructure/mt5/connection_adapter.py
-- with its mappers: the service on the adapter that implements its port.
use llm_mt5_agent.Prelude.{
  ◌≤◌, ℕ, zero, suc, String, ◌≡◌, refl, ◌∙◌, Bool, true, Bool-cases, List, inl, inr, Option, none,
}
use llm_mt5_agent.Python.Errors.{Exception, is_mt5_error, Result, ok, raise}
use llm_mt5_agent.Python.Float.{Float}
use llm_mt5_agent.Domain.Terminal.{Credentials, ConnectionConfig, ConnectionHealth}
use llm_mt5_agent.Infrastructure.Mappers.{Raw, Conversions}
use llm_mt5_agent.Infrastructure.Mappers.Account.{map_account_info, map_terminal_info}
use llm_mt5_agent.Infrastructure.Connection.{
  Mt5, Adapter, connect as adapter_connect, check_health as adapter_health,
  disconnect as adapter_disconnect,
}
use llm_mt5_agent.Infrastructure.Connection.Flag.{HealthFor, check_health-HealthFor}
use llm_mt5_agent.Application.Connection.Attempts.{Ended, ensure_connected-Ended}
use llm_mt5_agent.Application.Connection.{
  RetryPolicy, Port, Link, Attempt, connected, failed, crashed, sort_error, sort_health,
  after_connect, continue, paused, next, attempts, ensure_connected, verified, reconnect,
}

-- The adapter as the port of the service, with the configuration and the credentials at hand; `load`
-- is what `load_mt5()` gives and `quoted` is `repr`.
unfoldable pub adapter_port :
    {F W : Type 0} ⦃fl : Float F⦄
    → Conversions F
    → (String → String)
    → Result (Mt5 (Raw F) W)
    → ConnectionConfig
    → Option Credentials
    → Port (Adapter (Raw F) W)
adapter_port c quoted load config credentials = record {
  connect = adapter_connect load quoted config credentials;
  check_health = adapter_health load (map_account_info c) (map_terminal_info c);
  disconnect = adapter_disconnect;
}

-- Where a health record is returned, it says connected and `Q` holds of the world.
abbrev pub Answered : {F W : Type 0} → (W → Type 0) → Result ConnectionHealth × Link F W → Type 0
Answered Q (ok health, link) = (health.connected ≡ true) × Q link.world
Answered Q (raise e, link) = Unit

abbrev Holding : {W : Type 0} → (W → Type 0) → Attempt × W → Type 0
Holding Q (connected health, w) = (health.connected ≡ true) × Q w
Holding Q (failed e, w) = Unit
Holding Q (crashed e, w) = Unit

-- A connected health record is answered only by a world with `Q`.
abbrev pub Implies : {W : Type 0} → (W → Type 0) → Result ConnectionHealth × W → Type 0
Implies Q (ok health, w) = health.connected ≡ true → Q w
Implies Q (raise e, w) = Unit

module _ {W : Type 0} (Q : W → Type 0) where
  sort_error-Holding : (e : Exception) (w : W) → Holding Q (sort_error e, w)
  unfolding sort_error
  sort_error-Holding e w = elim (Bool-cases (is_mt5_error e.class)) [
    | inl h ↦ rw h tt
    | inr h ↦ rw h tt
  ]

  sort_health-Holding :
      (x : Result ConnectionHealth × W) → Implies Q x → Holding Q (sort_health x.0, x.1)
  unfolding sort_health
  sort_health-Holding (raise e, w) k = sort_error-Holding e w
  sort_health-Holding (ok health, w) k = elim (Bool-cases health.connected) [
    | inl h ↦ rw h (refl, k h)
    | inr h ↦ rw h tt
  ]

  after_connect-Holding :
      (port : Port W) (answer : Result (Unit {0}) × W)
      → ((w : W) → Implies Q (port.check_health w))
      → Holding Q (after_connect port answer)
  unfolding after_connect
  after_connect-Holding port (raise e, w) k = sort_error-Holding e w
  after_connect-Holding port (ok _, w) k = sort_health-Holding (port.check_health w) (k w)

module _ {F W : Type 0} ⦃fl : Float F⦄ (Q : W → Type 0) (r : RetryPolicy F) where
  pauses :
      (e : Exception) (link : Link F W) (slept : Result (List F))
      (again : Exception → Link F W → Result ConnectionHealth × Link F W)
      → ((x : Exception) (l : Link F W) → Answered Q (again x l))
      → Answered Q (continue (paused e link slept) (λ answer l. (answer, l)) again)
  unfolding continue paused
  pauses e link (ok slept) again k = k _ _
  pauses e link (raise x) again k = tt

  goes_on :
      (link : Link F W) (x : Attempt × W)
      (again : Exception → Link F W → Result ConnectionHealth × Link F W)
      → Holding Q x
      → ((e : Exception) (l : Link F W) → Answered Q (again e l))
      → Answered Q (continue (next r link x) (λ answer l. (answer, l)) again)
  unfolding next continue
  goes_on link (connected health, w) again h k = h
  goes_on link (crashed e, w) again h k = tt
  goes_on link (failed e, w) again h k = pauses e _ _ again k

  attempts-Answered :
      (port : Port W) (left : ℕ) (last : Exception) (link : Link F W)
      → ((w : W) → Implies Q (port.check_health w))
      → Answered Q (attempts r port left last link)
  unfolding attempts
  attempts-Answered port zero last link k = tt
  attempts-Answered port (suc left) last link k =
      goes_on link _ _ (after_connect-Holding Q port (port.connect link.world) k)
        (λ e l. attempts-Answered port left e l k)

module _ {F W : Type 0} ⦃fl : Float F⦄ (c : Conversions F) (quoted : String → String)
    (load : Result (Mt5 (Raw F) W)) (config : ConnectionConfig)
    (credentials : Option Credentials) where
  abbrev HasFlag : Adapter (Raw F) W → Type 0
  HasFlag a = a.connected ≡ true

  health-Implies :
      (b : Bool) (x : Result ConnectionHealth × Adapter (Raw F) W)
      → HealthFor load b x.0 x.1
      → Implies HasFlag x
  unfolding HealthFor
  health-Implies b (ok h, a) (f, k) = λ e. f.flag ∙ k e
  health-Implies b (raise e, a) h = tt

  port-Implies :
      (a : Adapter (Raw F) W)
      → Implies HasFlag ((adapter_port c quoted load config credentials).check_health a)
  unfolding adapter_port
  port-Implies a =
      health-Implies a.connected _
        (check_health-HealthFor load a (map_account_info c) (map_terminal_info c))

  answers :
      (r : RetryPolicy F) (a : Adapter (Raw F) W)
      → Answered HasFlag (ensure_connected r (adapter_port c quoted load config credentials) a)
  unfolding ensure_connected
  answers r a = attempts-Answered HasFlag r _ _ _ _ port-Implies

  -- For a policy of at least one attempt, whatever the terminal, its module and its objects are:
  -- ensure_connected, run on the connection adapter, makes at most max_attempts attempts and raises an
  -- MT5Error only after all of them; and where it, or reconnect without a check, returns a health
  -- record, the record says connected and the flag of the adapter that is_connected() reports is set.
  pub ensure_connected-Answered :
      (r : RetryPolicy F) (a : Adapter (Raw F) W)
      → 1 ≤ r.max_attempts
      → Ended r (ensure_connected r (adapter_port c quoted load config credentials) a)
        × Answered HasFlag (ensure_connected r (adapter_port c quoted load config credentials) a)
        × Answered HasFlag (reconnect r (adapter_port c quoted load config credentials) none a)
  unfolding reconnect verified
  ensure_connected-Answered r a l = (ensure_connected-Ended r _ a l, answers r a, answers r _)
