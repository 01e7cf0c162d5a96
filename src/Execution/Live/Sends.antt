-- ===== src/Execution/Live/Sends.antt =====
-- mt5_agent/execution/executor.py: what reaches `order_send` on the path to the terminal.
use llm_mt5_agent.Prelude.{
  ap, ◌∙◌, ◌≡◌, refl, true, Option, none, some, ◌&&◌, ◌==◌, inl, inr, Bool-cases,
}
use llm_mt5_agent.Python.Errors.{ok-inj, Result, ok, raise}
use llm_mt5_agent.Python.Float.{Float, Datetime}
use llm_mt5_agent.Domain.Account.{AccountInfo}
use llm_mt5_agent.Domain.Planning.{TradeProposal}
use llm_mt5_agent.Domain.Execution.{demo, mode_eq, rejected, failed, OrderRequest}
use llm_mt5_agent.Execution.Session.{
  RawTick, TradeReply, Terminal, Connection, Session, Host, attempt, call, probe,
}
use llm_mt5_agent.Execution.Reply.{trade_mode_real, is_checked, payload}
use llm_mt5_agent.Execution.Records.{Executor}
use llm_mt5_agent.Execution.Live.{
  require_module, submit, quote, quote, on_tick, not_connected, on_account, execute_connected,
  with_connection, execute_live,
}
use llm_mt5_agent.Execution.Live.Orders.{
  bind_case, IsModule, price_at, require_module-world, require_module-IsModule, Cleared, Ends,
  unsent, raised, unchecked, send_order-Ends, require_module-sent,
}

module _ {F W : Type 0} ⦃fl : Float F⦄ (ex : Executor F W) (host : Host F W)
    (request : OrderRequest F) (s : Session F W) where
  -- What is left to show of an order at a price, when `order_check` is asked in a world.
  Checked : Terminal F W → F → W → Type 0
  Checked mt5 price w =
      (checked : Option (TradeReply F))
      → (mt5.order_check (payload mt5 request price) w).0 ≡ ok checked
      → is_checked checked ≡ true
      → Cleared ex host request s mt5 price

  -- The same before the module is known and the tick is read.
  Quoted : Option (Terminal F W) → W → Type 0
  Quoted loaded w =
      (mt5 : Terminal F W) (tick : RawTick F)
      → IsModule host loaded mt5
      → (mt5.symbol_info_tick request.symbol w).0 ≡ ok (some tick)
      → Checked mt5 (price_at request tick) (mt5.symbol_info_tick request.symbol w).1

  submit-Ends :
      (mt5 : Terminal F W) (p : TradeProposal F) (price : F) (clock : Datetime) (s' : Session F W)
      → Checked mt5 price s'.world
      → s'.sent ≡ s.sent
      → Ends ex host request s (submit ex mt5 request p price clock s')
  unfolding submit Checked
  submit-Ends mt5 p price clock s' cleared e =
      bind_case (call (mt5.order_check (payload mt5 request price))) _ s' (Ends ex host request s)
        (λ checked h. elim (Bool-cases (is_checked checked)) [
          | inl d ↦
              rw d (send_order-Ends ex host request s mt5 p price clock _ (cleared checked h d) e)
          | inr d ↦ rw d (unchecked ex host request s mt5 checked p price clock _ e)
        ])
        (λ x _. raised ex host request s _ x e)

  on_tick-Ends :
      (mt5 : Terminal F W) (tick : Option (RawTick F)) (p : TradeProposal F) (clock : Datetime)
      (s' : Session F W)
      → ((t : RawTick F) → tick ≡ some t → Checked mt5 (price_at request t) s'.world)
      → s'.sent ≡ s.sent
      → Ends ex host request s (on_tick ex mt5 request p clock tick s')
  unfolding on_tick
  on_tick-Ends mt5 none p clock s' cleared e =
      unsent ex host request s s' failed p _ _ _ none clock e refl
  on_tick-Ends mt5 (some t) p clock s' cleared e = submit-Ends mt5 p _ clock s' (cleared t refl) e

  quote-Ends :
      (p : TradeProposal F) (clock : Datetime) (s' : Session F W)
      → Quoted s'.mt5 s'.world
      → s'.sent ≡ s.sent
      → Ends ex host request s (quote ex host request p clock s')
  unfolding quote Quoted
  quote-Ends p clock s' cleared e =
      bind_case (require_module host) _ s' (Ends ex host request s)
        (λ mt5 h.
          bind_case (call (mt5.symbol_info_tick request.symbol)) _ (require_module host s').1
            (Ends ex host request s)
            (λ tick k.
              on_tick-Ends mt5 tick p clock _
                (λ t g.
                  let same = require_module-world host s' in
                  let read : (mt5.symbol_info_tick request.symbol s'.world).0 ≡ ok tick =
                    rw same at k in
                  rw same (cleared mt5 t (require_module-IsModule host s' mt5 h) (read ∙ ap ok g)))
                (require_module-sent host s' ∙ e))
            (λ x _. raised ex host request s _ x (require_module-sent host s' ∙ e)))
        (λ x _. raised ex host request s _ x (require_module-sent host s' ∙ e))

  on_account-Ends :
      (c : Connection F W) (p : TradeProposal F) (clock : Datetime) (found : Result (AccountInfo F))
      (s' : Session F W)
      → ex.connection ≡ some c
      → c.is_connected s.world ≡ true
      → (c.get_account_info s.world).0 ≡ found
      → s'.world ≡ (c.get_account_info s.world).1
      → s'.mt5 ≡ s.mt5
      → s'.sent ≡ s.sent
      → Ends ex host request s (on_account ex host request p clock found s')
  unfolding on_account Quoted Checked
  on_account-Ends c p clock (raise x) s' hc connected verified w l e =
      unsent ex host request s s' rejected p _ _ _ none clock e refl
  on_account-Ends c p clock (ok a) s' hc connected verified w l e =
      elim (Bool-cases (mode_eq ex.mode demo && a.trade_mode == trade_mode_real)) [
        | inl real ↦ rw real (unsent ex host request s s' rejected p _ _ _ none clock e refl)
        | inr not_real ↦ rw not_real (
            quote-Ends p clock s'
              (λ mt5 tick i q checked h d. record {
                connection = c;
                has_connection = hc;
                connected = connected;
                account = a;
                verified = verified;
                not_real = not_real;
                from_module = rw l at i;
                tick = tick;
                quoted = rw w at q;
                priced = refl;
                checked = checked;
                order_checked = rw w at h;
                is_done = d;
              })
              e)
      ]

  execute_connected-Ends :
      (c : Connection F W) (p : TradeProposal F) (clock : Datetime)
      → ex.connection ≡ some c
      → Ends ex host request s (execute_connected ex c host request p clock s)
  unfolding execute_connected
  execute_connected-Ends c p clock hc = elim (Bool-cases (c.is_connected s.world)) [
    | inr e ↦ rw e (raised ex host request s s not_connected refl)
    | inl e ↦ rw e (
        bind_case (attempt (probe c.get_account_info)) _ s (Ends ex host request s)
          (λ found h.
            on_account-Ends c p clock found _ hc e (ok-inj h) refl (refl {a = s.mt5})
              (refl {a = s.sent}))
          (λ x _. raised ex host request s _ x refl))
  ]

  with_connection-Ends :
      (p : TradeProposal F) (clock : Datetime) (o : Option (Connection F W))
      → ex.connection ≡ o
      → Ends ex host request s (with_connection ex host request p clock o s)
  unfolding with_connection
  with_connection-Ends p clock none e =
      unsent ex host request s s rejected p _ _ _ none clock refl refl
  with_connection-Ends p clock (some c) e = execute_connected-Ends c p clock e

  pub execute_live-Ends :
      (p : TradeProposal F) (clock : Datetime)
      → Ends ex host request s (execute_live ex host request p clock s)
  unfolding execute_live
  execute_live-Ends p clock = with_connection-Ends p clock ex.connection refl
