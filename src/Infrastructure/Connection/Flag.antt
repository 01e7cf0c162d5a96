-- ===== src/Infrastructure/Connection/Flag.antt =====
-- mt5_agent/infrastructure/mt5/connection_adapter.py: the flag of the connection.
use llm_mt5_agent.Prelude.{
  ℕ, String, ◌≡◌, refl, sym, ◌∙◌, Bool, true, false, ◌&&◌, Option, none, some,
}
use llm_mt5_agent.Python.Step.{
  Step, pure, Keeps, bind-Keeps, catch-Keeps, if-Keeps, look-Keeps, Results, bind-Results,
  OrHandled, catch-Results, if-Results,
}
use llm_mt5_agent.Python.Errors.{ExceptionClass, Exception, is_mt5_error, Result, ok, raise}
use llm_mt5_agent.Domain.Account.{AccountInfo}
use llm_mt5_agent.Domain.Terminal.{TerminalInfo, Credentials, ConnectionConfig, ConnectionHealth}
use llm_mt5_agent.Infrastructure.Connection.{
  Mt5, Adapter, on_module, set_connected, last_error_text, fail_with, fail_with_code, loaded,
  health_of, require_module, login_step, connect, ensure_connected, mapped, get_account_info,
  get_terminal_info, no_login, disconnected_record, probe_health, check_health,
}

module _ {R W : Type 0} where
  -- The flag of the adapter.
  pub record FlagIs (b : Bool) (a : Adapter R W) : Type 0 where
    pub flag : a.connected ≡ b

  on_module-Keeps :
      {b : Bool} {A : Type 0} (m : Step W A) → Keeps (FlagIs b) (FlagIs b) (on_module m)
  unfolding on_module
  on_module-Keeps m = record { leads = λ a h. record { flag = h.flag } }

  last_error_text-Keeps :
      {b : Bool} (mt5 : Mt5 R W) → Keeps (FlagIs b) (FlagIs b) (last_error_text mt5)
  unfolding last_error_text
  last_error_text-Keeps mt5 = catch-Keeps (on_module-Keeps _) (λ e. look-Keeps)

  fail_with-Keeps :
      {b : Bool} {A : Type 0} (mt5 : Mt5 R W) (class : ExceptionClass) (what : String)
      → Keeps (FlagIs b) (FlagIs b) (fail_with {A = A} mt5 class what)
  unfolding fail_with
  fail_with-Keeps mt5 class what = bind-Keeps (last_error_text-Keeps mt5) (λ _. look-Keeps)

  fail_with_code-Keeps :
      {b : Bool} {A : Type 0} (mt5 : Mt5 R W) (class : ExceptionClass) (what : String)
      → Keeps (FlagIs b) (FlagIs b) (fail_with_code {A = A} mt5 class what)
  unfolding fail_with_code
  fail_with_code-Keeps mt5 class what =
      bind-Keeps (last_error_text-Keeps mt5)
        (λ _. bind-Keeps (last_error_text-Keeps mt5) (λ _. look-Keeps))

  ruleset flags = (
    bind-Keeps, catch-Keeps, if-Keeps, look-Keeps, on_module-Keeps, last_error_text-Keeps,
    fail_with-Keeps, fail_with_code-Keeps,
  )

module _ {R W : Type 0} (load : Result (Mt5 R W)) (b : Bool) where
  loaded-FlagIs :
      (o : Option (Mt5 R W)) (l : Result (Mt5 R W)) (a : Adapter R W)
      → FlagIs b a
      → FlagIs b (loaded o l a).1
  unfolding loaded
  loaded-FlagIs (some mt5) l a h = h
  loaded-FlagIs none (raise e) a h = h
  loaded-FlagIs none (ok mt5) a h = record { flag = h.flag }

  require_module-Keeps : Keeps (FlagIs b) (FlagIs b) (require_module load)
  unfolding require_module
  require_module-Keeps = record { leads = λ a h. loaded-FlagIs a.mt5 load a h }

  login_step-Keeps :
      (quoted : String → String) (mt5 : Mt5 R W) (c : Option Credentials)
      → Keeps (FlagIs b) (FlagIs b) (login_step load quoted mt5 c)
  unfolding login_step
  login_step-Keeps quoted mt5 none = look-Keeps
  login_step-Keeps quoted mt5 (some c) = search flags depth 14

  ensure_connected-Keeps : Keeps (FlagIs b) (FlagIs b) (ensure_connected load)
  unfolding ensure_connected
  ensure_connected-Keeps = search (flags, require_module-Keeps) depth 14

  mapped-Keeps :
      {A : Type 0} (mt5 : Mt5 R W) (what : String) (map_raw : R → Result A) (raw : Option R)
      → Keeps (FlagIs b) (FlagIs b) (mapped load mt5 what map_raw raw)
  unfolding mapped
  mapped-Keeps mt5 what map_raw none = fail_with-Keeps mt5 _ _
  mapped-Keeps mt5 what map_raw (some raw) = look-Keeps

  get_account_info-Keeps :
      {F : Type 0} (map_account : R → Result (AccountInfo F))
      → Keeps (FlagIs b) (FlagIs b) (get_account_info load map_account)
  unfolding get_account_info
  get_account_info-Keeps map_account = search (flags, ensure_connected-Keeps, mapped-Keeps) depth 14

  get_terminal_info-Keeps :
      (map_terminal : R → Result TerminalInfo)
      → Keeps (FlagIs b) (FlagIs b) (get_terminal_info load map_terminal)
  unfolding get_terminal_info
  get_terminal_info-Keeps map_terminal =
      search (flags, ensure_connected-Keeps, mapped-Keeps) depth 14

  -- The flag after `connect`: set where it returns, as it was where it raises.
  unfoldable pub FlagAfter : Result (Unit {0}) → Adapter R W → Type 0
  FlagAfter (ok _) a = a.connected ≡ true
  FlagAfter (raise e) a = FlagIs b a

  set_connected-Results : Results (FlagIs b) FlagAfter (set_connected true)
  unfolding set_connected FlagAfter
  set_connected-Results = record { results = λ a h. refl }

  raised-FlagAfter : (e : Exception) (a : Adapter R W) → FlagIs b a → FlagAfter (raise e) a
  unfolding FlagAfter
  raised-FlagAfter e a h = h

  connect-Results :
      (quoted : String → String) (config : ConnectionConfig) (credentials : Option Credentials)
      → Results (FlagIs b) FlagAfter (connect load quoted config credentials)
  unfolding connect
  connect-Results quoted config credentials =
      bind-Results raised-FlagAfter require_module-Keeps (λ mt5.
        bind-Results raised-FlagAfter (on_module-Keeps _) (λ started.
          bind-Results raised-FlagAfter (if-Keeps started look-Keeps (fail_with_code-Keeps mt5 _ _))
            (λ _.
              bind-Results raised-FlagAfter (login_step-Keeps quoted mt5 credentials)
                (λ _. set_connected-Results))))

  -- The health record that an adapter may answer: none says connected but for a set flag.
  unfoldable pub HealthFor : Result ConnectionHealth → Adapter R W → Type 0
  HealthFor (ok h) a = FlagIs b a × (h.connected ≡ true → b ≡ true)
  HealthFor (raise e) a = ⊥

  abbrev HealthOrRaise : Result ConnectionHealth → Adapter R W → Type 0
  HealthOrRaise = OrHandled (FlagIs b) HealthFor

  raised-Health : (e : Exception) (a : Adapter R W) → FlagIs b a → HealthOrRaise (raise e) a
  unfolding OrHandled
  raised-Health e a h = h

  disconnected-Health :
      (text : String) → Results (FlagIs b) HealthFor (pure (disconnected_record load text))
  unfolding HealthFor
  disconnected-Health text = record { results = λ a h. (h, λ k. cc) }

  no_login-Keeps : (e : Exception) → Keeps (FlagIs b) (FlagIs b) (no_login load e)
  unfolding no_login
  no_login-Keeps e = if-Keeps (is_mt5_error e.class) look-Keeps look-Keeps

  still_set : (x c : Bool) → c ≡ b → (x && c) ≡ true → b ≡ true
  still_set true c e h = sym e ∙ h
  still_set false c e h = cc

  health_of-Results :
      (terminal : TerminalInfo) (login : Option ℕ)
      → Results (FlagIs b) HealthOrRaise (health_of terminal login)
  unfolding health_of HealthFor OrHandled
  health_of-Results terminal login = record {
    results = λ a h. (h, still_set terminal.connected a.connected h.flag);
  }

  probe_health-Results :
      {F : Type 0} (map_account : R → Result (AccountInfo F))
      (map_terminal : R → Result TerminalInfo)
      → Results (FlagIs b) HealthOrRaise (probe_health load map_account map_terminal)
  unfolding probe_health
  probe_health-Results map_account map_terminal =
      bind-Results raised-Health require_module-Keeps (λ mt5.
        bind-Results raised-Health (get_terminal_info-Keeps map_terminal) (λ terminal.
          bind-Results raised-Health
            (catch-Keeps (bind-Keeps (get_account_info-Keeps map_account) (λ _. look-Keeps))
              no_login-Keeps)
            (λ login. health_of-Results terminal login)))

  disconnected-OrRaise :
      (text : String) → Results (FlagIs b) HealthOrRaise (pure (disconnected_record load text))
  unfolding HealthFor OrHandled
  disconnected-OrRaise text = record { results = λ a h. (h, λ k. cc) }

  check_health-Results :
      {F : Type 0} (map_account : R → Result (AccountInfo F))
      (map_terminal : R → Result TerminalInfo)
      → Results (FlagIs b) HealthFor (check_health load map_account map_terminal)
  unfolding check_health
  check_health-Results map_account map_terminal =
      catch-Results
        (bind-Results raised-Health look-Keeps (λ connected.
          if-Results connected (probe_health-Results map_account map_terminal)
            (disconnected-OrRaise "not connected")))
        (λ e. disconnected-Health e.message)

module _ {R W : Type 0} (load : Result (Mt5 R W)) (a : Adapter R W) where
  -- `connect` sets the flag of the connection where it returns. Where it raises, whatever failed, the
  -- flag is as it was before, also that of an adapter that was connected.
  pub connect-FlagAfter :
      (quoted : String → String) (config : ConnectionConfig) (credentials : Option Credentials)
      → let x = connect load quoted config credentials a in FlagAfter load a.connected x.0 x.1
  connect-FlagAfter quoted config credentials =
      (connect-Results load a.connected quoted config credentials).results a
        (record { flag = refl })

  -- `check_health` never raises, whatever the module or the mappers do: it answers a record, leaves the
  -- flag of the connection as it is, and says connected only if the flag is set.
  pub check_health-HealthFor :
      {F : Type 0} (map_account : R → Result (AccountInfo F))
      (map_terminal : R → Result TerminalInfo)
      → let x = check_health load map_account map_terminal a in HealthFor load a.connected x.0 x.1
  check_health-HealthFor map_account map_terminal =
      (check_health-Results load a.connected map_account map_terminal).results a
        (record { flag = refl })
