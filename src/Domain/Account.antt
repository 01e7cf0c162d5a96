-- ===== src/Domain/Account.antt =====
-- mt5_agent/domain/account.py
use llm_mt5_agent.Prelude.{ℕ, String, Bool}

pub record AccountInfo (F : Type 0) : Type 0 where
  pub login : ℕ
  pub server : String
  pub currency : String
  pub balance : F
  pub equity : F
  pub margin : F
  pub free_margin : F
  pub profit : F
  pub leverage : ℕ
  pub trade_allowed : Bool
  pub trade_mode : ℕ
  pub name : String
