-- ===== src/Execution/Session.antt =====
-- What mt5_agent/execution/executor.py calls: the functions of the MetaTrader5 module and the
-- connection port are parameters, over a state `W` of the outside world that they may change.
use llm_mt5_agent.Prelude.{
  ℕ, ◌+◌, not, str_eq, ◌<>◌, if◌then◌else◌, String, Bool, Option, none, some, List, [], ◌∷◌, ◌++◌,
}
use llm_mt5_agent.Python.Errors.{mt5_not_available_error, Result, ok, raise}
use llm_mt5_agent.Domain.Account.{AccountInfo}

-- `symbol_info_tick(symbol)`: the two prices that are read.
pub record RawTick (F : Type 0) : Type 0 where
  pub bid : F
  pub ask : F

-- The request dictionary of `order_check` and `order_send`.
pub record Payload (F : Type 0) : Type 0 where
  pub action : ℕ
  pub symbol : String
  pub volume : F
  pub order_type : ℕ
  pub price : F
  pub sl : F
  pub tp : F
  pub deviation : ℕ
  pub magic : ℕ
  pub comment : String
  pub type_time : ℕ
  pub type_filling : ℕ

-- A result object, each attribute `none` where the object lacks it.
pub record TradeReply (F : Type 0) : Type 0 where
  pub retcode : Option ℕ
  pub comment : Option String
  pub price : Option F
  pub order : Option ℕ
  pub deal : Option ℕ

-- The functions and constants of the MetaTrader5 module. A call may raise.
pub record Terminal (F W : Type 0) : Type 0 where
  pub symbol_info_tick : String → W → Result (Option (RawTick F)) × W
  pub order_check : Payload F → W → Result (Option (TradeReply F)) × W
  pub order_send : Payload F → W → Result (Option (TradeReply F)) × W
  -- whether `positions_get(ticket=...)` is truthy
  pub has_positions : ℕ → W → Result Bool × W
  -- the text of `last_error()`
  pub last_error : W → Result String × W
  pub order_type_buy : ℕ
  pub order_type_sell : ℕ
  pub trade_action_deal : ℕ
  pub order_time_gtc : ℕ
  pub order_filling_ioc : ℕ

-- The two methods of `MT5ConnectionPort` that the executor calls.
pub record Connection (F W : Type 0) : Type 0 where
  pub is_connected : W → Bool
  pub get_account_info : W → Result (AccountInfo F) × W

-- The world, the module if it is loaded, and a log for the theorems: the payloads handed to
-- `order_send` and the number of calls of the module.
pub record Session (F W : Type 0) : Type 0 where
  pub world : W
  pub mt5 : Option (Terminal F W)
  pub sent : List (Payload F)
  pub touched : ℕ

-- Where the program runs: `sys.platform`, and the package if it is installed.
pub record Host (F W : Type 0) : Type 0 where
  pub platform : String
  pub installed : Option (Terminal F W)

-- `load_mt5()` of infrastructure/mt5/module.py
unfoldable pub load_mt5 : {F W : Type 0} → Host F W → Result (Terminal F W)
load_mt5 host =
    if not (str_eq host.platform "win32")
    then raise (record {
      class = mt5_not_available_error;
      message =
          "MetaTrader5 is only supported on Windows (current platform: "
          <> (host.platform <> "). Use a FakeMT5ConnectionPort double in tests.");
    })
    else elim host.installed [
      | some mt5 ↦ ok mt5
      | none ↦ raise (record {
        class = mt5_not_available_error;
        message =
            "MetaTrader5 package is not installed. Install with: pip install MetaTrader5 (Windows only).";
      })
    ]

-- A statement that may change the session and may raise; what it changed stays changed.
abbrev pub Action : Type 0 → Type 0 → Type 0 → Type 0
Action F W A = Session F W → Result A × Session F W

module _ {F W A : Type 0} where
  abbrev pub pure : A → Action F W A
  pure a s = (ok a, s)

  abbrev pub lift : Result A → Action F W A
  lift r s = (r, s)

  -- The value or the exception of a statement, for `try`.
  abbrev pub attempt : Action F W A → Action F W (Result A)
  attempt m s = let (r, s') = m s in (ok r, s')

  -- A call of a function of the module.
  abbrev pub call : (W → Result A × W) → Action F W A
  call f s = let (r, w) = f s.world in (r, record s { world = w; touched = s.touched + 1 })

  -- `order_send(payload)`
  abbrev pub send : (Payload F → W → Result A × W) → Payload F → Action F W A
  send f payload s =
      let (r, w) = f payload s.world in
      (r, record s { world = w; touched = s.touched + 1; sent = s.sent ++ (payload ∷ []) })

  -- A call of the connection port.
  abbrev pub probe : (W → Result A × W) → Action F W A
  probe f s = let (r, w) = f s.world in (r, record s { world = w })

infixl 5 ◌>>=◌
unfoldable pub ◌>>=◌ : {F W A B : Type 0} → Action F W A → (A → Action F W B) → Action F W B
◌>>=◌ m f s = let (r, s') = m s in elim r [ ok a ↦ f a s' | raise e ↦ (raise e, s') ]
