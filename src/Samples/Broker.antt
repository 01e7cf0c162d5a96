-- ===== src/Samples/Broker.antt =====
-- A broker for the tests: its terminal fills every order.
use llm_mt5_agent.Prelude.{ℕ, ◌+◌, true, false, none, some, []}
use llm_mt5_agent.Python.Errors.{ok}
use llm_mt5_agent.Python.Decimal.{Decimal, decimal}
use llm_mt5_agent.Domain.Execution.{demo}
use llm_mt5_agent.Execution.Session.{Terminal, Connection, Session, Host}
use llm_mt5_agent.Execution.Records.{Executor}
use llm_mt5_agent.Samples.{dec, account}

-- A terminal whose state counts the orders.
abbrev pub terminal : Terminal Decimal ℕ
terminal = record {
  symbol_info_tick = λ symbol w. (ok (some (record { bid = dec 109_990; ask = dec 110_000 })), w);
  order_check = λ order w. (
    ok (
        some (record {
          retcode = some 10009;
          comment = none;
          price = none;
          order = none;
          deal = none;
        })),
    w,
  );
  order_send = λ order w. (
    ok (
        some (record {
          retcode = some 10009;
          comment = none;
          price = some order.price;
          order = some (w + 1);
          deal = some (w + 1);
        })),
    w + 1,
  );
  has_positions = λ ticket w. (ok true, w);
  last_error = λ w. (ok "", w);
  order_type_buy = 0;
  order_type_sell = 1;
  trade_action_deal = 1;
  order_time_gtc = 0;
  order_filling_ioc = 1;
}

abbrev pub connection : Connection Decimal ℕ
connection = record { is_connected = λ w. true; get_account_info = λ w. (ok account, w) }

abbrev pub host : Host Decimal ℕ
host = record { platform = "win32"; installed = some terminal }

abbrev pub session : Session Decimal ℕ
session = record { world = 0; mt5 = none; sent = []; touched = 0 }

abbrev pub executor : Executor Decimal ℕ
executor = record {
  mode = demo;
  allow_live = false;
  connection = some connection;
  default_volume = dec 1_000;
  magic = 0;
  deviation = 20;
}
