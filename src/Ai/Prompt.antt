-- ===== src/Ai/Prompt.antt =====
-- mt5_agent/ai/planner.py: `build_user_prompt`, the context of the planner as a JSON text.
use llm_mt5_agent.Prelude.{pos, String, Option, none, some, List, [], ◌∷◌, map, last_items}
use llm_mt5_agent.Domain.Market.{timeframe_value, Candle, Tick}
use llm_mt5_agent.Domain.Trading.{Position, AccountState, side_name}
use llm_mt5_agent.Domain.Strategy.{direction_value, Fact, count, missing, StrategySignal}
use llm_mt5_agent.Domain.Planning.{MemoryNote, PlannerInput}
use llm_mt5_agent.Ai.Json.{
  Json, null, integer, number, text, array, object, items, members, Builtins,
}

module _ {F : Type 0} where
  -- A dictionary with its keys in order.
  abbrev pub dict : List (String × Json F) → Json F
  dict fields = object (members fields)

  unfoldable pub fact_json : Fact F → Json F
  fact_json (count n) = integer (pos n)
  fact_json (Fact.number x) = number x
  fact_json (Fact.text s) = text s
  fact_json missing = null

  unfoldable pub candle_json : Builtins F → Candle F → Json F
  candle_json b c = dict (
      ("t", text (b.isoformat c.time))
      ∷ ("o", number c.open_)
      ∷ ("h", number c.high)
      ∷ ("l", number c.low)
      ∷ ("c", number c.close)
      ∷ [])

  unfoldable pub tick_json : Builtins F → Option (Tick F) → Json F
  tick_json b none = null
  tick_json b (some t) =
      dict
        (("bid", number t.bid) ∷ ("ask", number t.ask) ∷ ("time", text (b.isoformat t.time)) ∷ [])

  unfoldable pub account_json : Option (AccountState F) → Json F
  account_json none = null
  account_json (some a) = dict (
      ("balance", number a.account.balance)
      ∷ ("equity", number a.account.equity)
      ∷ ("margin", number a.account.margin)
      ∷ ("free_margin", number a.account.free_margin)
      ∷ ("open_positions", integer (pos a.open_positions))
      ∷ ("exposure_volume", number a.exposure_volume)
      ∷ ("floating_profit", number a.floating_profit)
      ∷ [])

  unfoldable pub position_json : Position F → Json F
  position_json p = dict (
      ("ticket", integer (pos p.ticket))
      ∷ ("side", text (side_name p.side))
      ∷ ("volume", number p.volume)
      ∷ ("profit", number p.profit)
      ∷ [])

  unfoldable pub note_json : MemoryNote → Json F
  note_json m = dict (("kind", text m.kind) ∷ ("text", text m.text) ∷ [])

  unfoldable pub signal_json : StrategySignal F → Json F
  signal_json s = dict (
      ("strategy", text s.strategy)
      ∷ ("direction", text (direction_value s.direction))
      ∷ ("confidence", number s.confidence)
      ∷ ("setups", array (items (map (λ setup. text setup.identifier) s.setups)))
      ∷ ("facts", dict (map (λ (name, fact). (name, fact_json fact)) s.facts))
      ∷ ("rationale", text s.rationale)
      ∷ [])

  -- `build_user_prompt(planner_input)`
  unfoldable pub build_user_prompt : Builtins F → PlannerInput F → String
  build_user_prompt b i = b.dumps (
      dict (
        ("symbol", text i.symbol)
        ∷ ("timeframe", text (timeframe_value i.timeframe))
        ∷ ("strategy_signal", signal_json i.signal)
        ∷ (
          "market",
          dict (
              ("candles", array (items (map (candle_json b) (last_items 20 i.snapshot.candles))))
              ∷ ("tick", tick_json b i.snapshot.tick)
              ∷ []),
        )
        ∷ ("account", account_json i.account)
        ∷ ("open_positions", array (items (map position_json i.open_positions)))
        ∷ ("memory", array (items (map note_json i.memory)))
        ∷ []))
