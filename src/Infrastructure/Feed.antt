-- ===== src/Infrastructure/Feed.antt =====
-- mt5_agent/infrastructure/mt5: what the market adapter and the trading adapter share, their state and
-- the check before every read.
pub mod Market
pub mod Trading
pub mod Guard
pub mod MarketObeys
pub mod Snapshot
pub mod TradingObeys
mod Tests
use llm_mt5_agent.Prelude.{if◌then◌else◌, String, Bool, true, Option, none, some}
use llm_mt5_agent.Python.Step.{Step, pure, lift, ◌>>=◌, ◌>>◌, within}
use llm_mt5_agent.Python.Errors.{ExceptionClass, mt5_not_connected_error, Result, ok, raise}

-- The object of an adapter, the outside world included. `M` is the module of the terminal.
pub record Feed (M W : Type 0) : Type 0 where
  pub mt5 : Option M
  pub world : W

abbrev pub fail : {S A : Type 0} → ExceptionClass → String → Step S A
fail class message = lift (raise (record { class = class; message = message }))

module _ {M W : Type 0} where
  -- A call of the outside world.
  unfoldable pub on_world : {A : Type 0} → Step W A → Step (Feed M W) A
  on_world m = within (λ a. a.world) (λ a w. record a { world = w }) m

  -- `self._connection is None or self._connection.is_connected()`
  unfoldable pub linked : Option (Step W Bool) → Step (Feed M W) Bool
  linked none = pure true
  linked (some is_connected) = on_world is_connected

  -- The module that the object holds, or the one that is loaded and then held.
  unfoldable pub held : Result M → Option M → Step (Feed M W) M
  held load (some mt5) a = (ok mt5, a)
  held (ok mt5) none a = (ok mt5, record a { mt5 = some mt5 })
  held (raise e) none a = (raise e, a)

  unfoldable pub module_of : Result M → Step (Feed M W) M
  module_of load a = held load a.mt5 a

  -- `self._ensure_ready()`, where `load` is what `load_mt5()` gives
  unfoldable pub ensure_ready : Option (Step W Bool) → Result M → Step (Feed M W) M
  ensure_ready connection load = do
    connected ← linked connection
    if connected
        then module_of load
        else fail mt5_not_connected_error "Not connected. Call connect() first."
