-- ===== src/Domain/Terminal.antt =====
-- mt5_agent/domain/terminal.py
use llm_mt5_agent.Prelude.{ℕ, String, ◌<>◌, Bool, Option, str_ℕ}

pub record TerminalInfo : Type 0 where
  pub company : String
  pub name : String
  pub path : String
  pub trade_allowed : Bool
  pub connected : Bool
  pub build : ℕ
  pub max_bars : ℕ

pub record Credentials : Type 0 where
  pub login : ℕ
  pub password : String
  pub server : String

-- `repr(credentials)`, where `quoted` is `repr` of a text: the password does not occur.
unfoldable pub credentials_repr : (String → String) → Credentials → String
credentials_repr quoted c =
    "MT5Credentials(login="
    <> (str_ℕ c.login <> (", server=" <> (quoted c.server <> ", password='***')")))

pub record ConnectionConfig : Type 0 where
  pub timeout_ms : ℕ
  pub portable : Bool
  pub path : Option String
  pub login : Option ℕ
  pub server : Option String

-- `details`, which nothing fills, is left out.
pub record ConnectionHealth : Type 0 where
  pub connected : Bool
  pub trade_allowed : Bool
  pub account_login : Option ℕ
  pub terminal_company : String
  pub error : String
