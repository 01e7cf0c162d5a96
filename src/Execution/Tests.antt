-- ===== src/Execution/Tests.antt =====
-- Runs of the executor against a terminal that fills every order, and the theorems at those inputs.
use llm_mt5_agent.Prelude.{
  is_blank, ℕ, ◌+◌, ◌≡◌, refl, none, some, [], ◌∷◌, ◌++◌, length, ◌*ℤ◌, ◌-ℤ◌, ◌+ℤ◌,
}
use llm_mt5_agent.Python.Errors.{ok}
use llm_mt5_agent.Python.Float.{or_else}
use llm_mt5_agent.Python.Decimal.{Decimal, decimal}
use llm_mt5_agent.Domain.Planning.{TradeAction}
use llm_mt5_agent.Domain.Execution.{
  dry_run, failed, ExecutionRecord, OrderRequest, new_order_request, new_execution_record,
}
use llm_mt5_agent.Risk.Supervisor.{SupervisorDecision}
use llm_mt5_agent.Risk.Supervisor.Ledger.{decision}
use llm_mt5_agent.Execution.Session.{TradeReply, Terminal, ◌>>=◌, load_mt5}
use llm_mt5_agent.Execution.Reply.{is_checked, accepted, payload}
use llm_mt5_agent.Execution.Records.{Executor, record_of, to_request}
use llm_mt5_agent.Execution.Live.{
  require_module, on_tick, on_account, submit, filled, verify, quote, execute_connected,
  with_connection, execute_live, send_order,
}
use llm_mt5_agent.Execution.Executor.{
  caught, run, run_request, remember, execute_key, execute, find, key_of,
}
use llm_mt5_agent.Execution.Executor.Total.{Filed, execute-Filed}
use llm_mt5_agent.Execution.Executor.Replay.{Call, execute_call, after, replay}
use llm_mt5_agent.Execution.Executor.Safety.{Effect, execute-Effect}
use llm_mt5_agent.Execution.Executor.Withheld.{withheld, execute-untouched, send_order-ticketless}
use llm_mt5_agent.Samples.Broker.{terminal, host, session, executor}
use llm_mt5_agent.Samples.{dec, noon, proposal}

abbrev dry : Executor Decimal ℕ
dry = record executor { mode = dry_run }

abbrev approved : SupervisorDecision Decimal
approved = decision proposal [] noon

abbrev call : Call Decimal
call = record { decision = approved; client_id = some "a"; fresh = "f"; clock = noon }

abbrev second : Call Decimal
second = record { decision = approved; client_id = none; fresh = "g"; clock = noon }

sends_two : length (after executor host [] session (call ∷ second ∷ call ∷ [])).1.sent ≡ 2
unfolding after execute execute_key remember run run_request caught execute_live with_connection
    execute_connected on_account quote on_tick submit send_order filled verify require_module
    to_request new_order_request new_execution_record key_of find ◌>>=◌ ◌*ℤ◌ ◌-ℤ◌ ◌+ℤ◌ is_blank
    or_else load_mt5 is_checked accepted
sends_two = refl

execute-Filed_example : Filed [] "f" (execute executor host [] approved none "f" noon session)
unfolding key_of
execute-Filed_example = execute-Filed executor host [] approved none "f" noon session

execute-Effect_example :
    Effect executor host [] approved "f" session
      (execute executor host [] approved none "f" noon session)
unfolding key_of
execute-Effect_example = execute-Effect executor host [] approved none "f" noon session

execute-untouched_example : (execute dry host [] approved none "f" noon session).session ≡ session
unfolding withheld
execute-untouched_example = execute-untouched dry host [] approved none "f" noon session refl

replay_example :
    (r : ExecutionRecord Decimal) × ((execute_call executor host [] session call).answer ≡ ok r)
    × (execute_call executor host
          (after executor host [] session (call ∷ second ∷ [])).0
          (after executor host [] session (call ∷ second ∷ [])).1
          call
        ≡ record {
          answer = ok r;
          ledger = (after executor host [] session (call ∷ second ∷ [])).0;
          session = (after executor host [] session (call ∷ second ∷ [])).1;
        })
replay_example = replay executor host [] session call (second ∷ []) call refl

abbrev unnumbered : TradeReply Decimal
unnumbered = record {
  retcode = some 10009;
  comment = none;
  price = none;
  order = some 0;
  deal = none;
}

-- The same terminal, with replies that lack the order number.
abbrev silent : Terminal Decimal ℕ
silent = record terminal { order_send = λ order w. (ok (some unnumbered), w + 1) }

abbrev request : OrderRequest Decimal
request = record {
  symbol = "EURUSD";
  action = TradeAction.buy;
  volume = dec 1_000;
  stop_loss = dec 109_000;
  take_profit = dec 112_000;
  magic = 0;
  deviation = 20;
  client_id = "a";
}

send_order-ticketless_example :
    ((caught executor "a" proposal noon
        (send_order executor silent request proposal (dec 110_000) noon session)).0
      ≡ record_of executor "a" proposal failed
          "ValueError: non-dry-run SUCCESS records require a ticket" "" none noon)
    × ((caught executor "a" proposal noon
          (send_order executor silent request proposal (dec 110_000) noon session)).1.sent
        ≡ session.sent ++ (payload silent request (dec 110_000) ∷ []))
unfolding accepted
send_order-ticketless_example =
    send_order-ticketless executor silent request proposal (dec 110_000) unnumbered noon session
      refl refl refl refl
