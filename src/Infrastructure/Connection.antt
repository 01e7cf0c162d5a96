-- ===== src/Infrastructure/Connection.antt =====
-- mt5_agent/infrastructure/mt5/connection_adapter.py: the adapter over the functions of the module
-- that it calls. `R` is a raw object of the module; the mappers of such objects are arguments.
pub mod Flag
use llm_mt5_agent.Prelude.{
  if◌then◌else◌, str_eq, str_ℕ, ℕ, String, ◌<>◌, Bool, true, false, ◌&&◌, Option, none, some,
}
use llm_mt5_agent.Python.Step.{Step, pure, lift, read, catch, modify, ◌>>=◌, ◌>>◌}
use llm_mt5_agent.Python.Errors.{
  ExceptionClass, mt5_connection_error, mt5_login_error, mt5_not_connected_error, mt5_data_error,
  Exception, is_mt5_error, Result, ok, raise,
}
use llm_mt5_agent.Domain.Account.{AccountInfo}
use llm_mt5_agent.Domain.Terminal.{TerminalInfo, Credentials, ConnectionConfig, ConnectionHealth}

-- The keyword arguments of `initialize`, `none` where one is not passed.
pub record InitArgs : Type 0 where
  pub path : Option String
  pub timeout : ℕ
  pub portable : Bool
  pub login : Option ℕ
  pub password : Option String
  pub server : Option String

-- The functions of the MetaTrader5 module. A call may raise.
pub record Mt5 (R W : Type 0) : Type 0 where
  pub initialize : InitArgs → Step W Bool
  pub login : ℕ → String → String → Step W Bool
  pub shutdown : Step W (Unit {0})
  pub account_info : Step W (Option R)
  pub terminal_info : Step W (Option R)
  -- the text of `last_error()`
  pub last_error : Step W String

-- The object, the outside world included.
pub record Adapter (R W : Type 0) : Type 0 where
  pub mt5 : Option (Mt5 R W)
  pub connected : Bool
  pub world : W

-- `path or None`
unfoldable pub path_or_none : Option String → Option String
path_or_none none = none
path_or_none (some p) = if str_eq p "" then none else some p

-- `kwargs` of `connect`
unfoldable pub init_args : ConnectionConfig → Option Credentials → InitArgs
init_args c credentials = record {
  path = path_or_none c.path;
  timeout = c.timeout_ms;
  portable = c.portable;
  login = elim credentials [ none ↦ c.login | some x ↦ some x.login ];
  password = elim credentials [ none ↦ none | some x ↦ some x.password ];
  server = elim credentials [ none ↦ c.server | some x ↦ some x.server ];
}

abbrev pub mt5_exception : ExceptionClass → String → Exception
mt5_exception class message = record { class = class; message = message }

module _ {R W : Type 0} where
  -- A call of the module.
  unfoldable pub on_module : {A : Type 0} → Step W A → Step (Adapter R W) A
  on_module m a = let (r, w) = m a.world in (r, record a { world = w })

  unfoldable pub set_connected : Bool → Step (Adapter R W) (Unit {0})
  set_connected b = modify (λ a. record a { connected = b })

  -- `self._last_error(mt5)`
  unfoldable pub last_error_text : Mt5 R W → Step (Adapter R W) String
  last_error_text mt5 = catch (on_module mt5.last_error) (λ e. pure "unknown error")

  -- `raise MT5...Error(f"{what}: {self._last_error(mt5)}")`
  unfoldable pub fail_with : {A : Type 0} → Mt5 R W → ExceptionClass → String → Step (Adapter R W) A
  fail_with mt5 class what = do
    reason ← last_error_text mt5
    lift (raise (mt5_exception class (what <> (": " <> reason))))

  -- The same with `code=self._last_error(mt5)`, which asks the terminal once more.
  unfoldable pub fail_with_code :
      {A : Type 0} → Mt5 R W → ExceptionClass → String → Step (Adapter R W) A
  fail_with_code mt5 class what = do
    reason ← last_error_text mt5
    code ← last_error_text mt5
    lift (raise (mt5_exception class (what <> (": " <> reason))))

-- The module that the object holds, or the one that is loaded and then held.
unfoldable pub loaded :
    {R W : Type 0} → Option (Mt5 R W) → Result (Mt5 R W) → Step (Adapter R W) (Mt5 R W)
loaded (some mt5) load a = (ok mt5, a)
loaded none (raise e) a = (raise e, a)
loaded none (ok mt5) a = (ok mt5, record a { mt5 = some mt5 })

-- The record of a terminal that answered.
unfoldable pub health_of :
    {R W : Type 0} → TerminalInfo → Option ℕ → Step (Adapter R W) ConnectionHealth
health_of terminal account_login a =
    let still = terminal.connected && a.connected in
    (
      ok (record {
        connected = still;
        trade_allowed = terminal.trade_allowed;
        account_login = account_login;
        terminal_company = terminal.company;
        error = if still then "" else "terminal reports disconnected";
      }),
      a,
    )

module _ {R W : Type 0} (load : Result (Mt5 R W)) where
  -- `self._require_module()`, where `load` is what `load_mt5()` answers
  unfoldable pub require_module : Step (Adapter R W) (Mt5 R W)
  require_module a = loaded a.mt5 load a

  -- The login of `connect`, which only given credentials ask for; `quoted` is `repr`.
  unfoldable pub login_step :
      (String → String) → Mt5 R W → Option Credentials → Step (Adapter R W) (Unit {0})
  login_step quoted mt5 none = pure tt
  login_step quoted mt5 (some c) = do
    accepted ← on_module (mt5.login c.login c.password c.server)
    if accepted then pure tt else (do
      on_module mt5.shutdown
      fail_with_code mt5 mt5_login_error
          ("mt5.login() failed for login=" <> (str_ℕ c.login <> (" server=" <> quoted c.server))))

  -- `self.connect(config, credentials)`
  unfoldable pub connect :
      (String → String) → ConnectionConfig → Option Credentials → Step (Adapter R W) (Unit {0})
  connect quoted config credentials = do
    mt5 ← require_module
    started ← on_module (mt5.initialize (init_args config credentials))
    if started then pure tt else fail_with_code mt5 mt5_connection_error "mt5.initialize() failed"
    login_step quoted mt5 credentials
    set_connected true

  -- `self._ensure_connected()`
  unfoldable pub ensure_connected : Step (Adapter R W) (Mt5 R W)
  ensure_connected = do
    mt5 ← require_module
    connected ← read (λ a. a.connected)
    if connected
        then pure mt5
        else lift
            (raise (mt5_exception mt5_not_connected_error "Not connected. Call connect() first."))

  -- The object of a probe, or `MT5DataError` for `None`.
  unfoldable pub mapped :
      {A : Type 0} → Mt5 R W → String → (R → Result A) → Option R → Step (Adapter R W) A
  mapped mt5 what map_raw none = fail_with mt5 mt5_data_error (what <> "() returned None")
  mapped mt5 what map_raw (some raw) = lift (map_raw raw)

  -- `self.get_account_info()`
  unfoldable pub get_account_info :
      {F : Type 0} → (R → Result (AccountInfo F)) → Step (Adapter R W) (AccountInfo F)
  get_account_info map_account = do
    mt5 ← ensure_connected
    raw ← on_module mt5.account_info
    mapped mt5 "account_info" map_account raw

  -- `self.get_terminal_info()`
  unfoldable pub get_terminal_info : (R → Result TerminalInfo) → Step (Adapter R W) TerminalInfo
  get_terminal_info map_terminal = do
    mt5 ← ensure_connected
    raw ← on_module mt5.terminal_info
    mapped mt5 "terminal_info" map_terminal raw

  -- `except MT5Error: account_login = None`; any other exception goes on.
  unfoldable pub no_login : Exception → Step (Adapter R W) (Option ℕ)
  no_login e = if is_mt5_error e.class then pure none else lift (raise e)

  abbrev pub disconnected_record : String → ConnectionHealth
  disconnected_record text = record {
    connected = false;
    trade_allowed = false;
    account_login = none;
    terminal_company = "";
    error = text;
  }

  -- The body of the `try` of `check_health` for an adapter that is connected.
  unfoldable pub probe_health :
      {F : Type 0}
      → (R → Result (AccountInfo F))
      → (R → Result TerminalInfo)
      → Step (Adapter R W) ConnectionHealth
  probe_health map_account map_terminal = do
    mt5 ← require_module
    terminal ← get_terminal_info map_terminal
    account_login ←
        catch (do account ← get_account_info map_account; pure (some account.login)) no_login
    health_of terminal account_login

  -- `self.check_health()`
  unfoldable pub check_health :
      {F : Type 0}
      → (R → Result (AccountInfo F))
      → (R → Result TerminalInfo)
      → Step (Adapter R W) ConnectionHealth
  check_health map_account map_terminal =
      catch
        (do
          connected ← read (λ a. a.connected)
          if connected
              then probe_health map_account map_terminal
              else pure (disconnected_record "not connected"))
        (λ e. pure (disconnected_record e.message))

-- `try: mt5.shutdown()` with `finally: self._connected = False`
unfoldable pub shut_down : {R W : Type 0} → Option (Mt5 R W) → Step (Adapter R W) (Unit {0})
shut_down none = pure tt
shut_down (some mt5) = on_module mt5.shutdown

-- `self.disconnect()`
unfoldable pub disconnect : {R W : Type 0} → Step (Adapter R W) (Unit {0})
disconnect a = let (answer, b) = shut_down a.mt5 a in (answer, record b { connected = false })
