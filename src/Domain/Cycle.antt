-- ===== src/Domain/Cycle.antt =====
-- mt5_agent/domain/agent.py
use llm_mt5_agent.Prelude.{
  String, is_blank, str_eq, Bool, true, false, not, Option, none, some, List, [], ◌∷◌, ◌&&◌, all,
  if◌then◌else◌,
}
use llm_mt5_agent.Python.Errors.{Result, ok, raise_if, ◌>>◌}
use llm_mt5_agent.Python.Float.{Datetime}

pub data StageStatus : Type 0 where
  ok_ skipped failed : StageStatus

abbrev pub is_failed : StageStatus → Bool
is_failed failed = true
is_failed _ = false

pub data Stage : Type 0 where
  observe context strategy memory plan supervise execute verify memory_update : Stage

abbrev pub stage_eq : Stage → Stage → Bool
stage_eq observe observe = true
stage_eq context context = true
stage_eq strategy strategy = true
stage_eq memory memory = true
stage_eq plan plan = true
stage_eq supervise supervise = true
stage_eq execute execute = true
stage_eq verify verify = true
stage_eq memory_update memory_update = true
stage_eq _ _ = false

pub record StageOutcome : Type 0 where
  pub stage : Stage
  pub status : StageStatus
  pub summary : String
  pub at : Datetime

unfoldable pub new_stage_outcome : StageOutcome → Result StageOutcome
new_stage_outcome o = do raise_if (is_blank o.summary) "summary must be non-empty"; ok o

pub record AgentCycle : Type 0 where
  pub cycle_id : String
  pub symbol : String
  pub timeframe : String
  pub stages : List StageOutcome
  pub started_at : Datetime
  pub finished_at : Datetime
  pub error : String

-- `cycle.ok`
unfoldable pub cycle_ok : AgentCycle → Bool
cycle_ok c = str_eq c.error "" && all (λ s. not (is_failed s.status)) c.stages

-- `cycle.stage(wanted)`
unfoldable pub find_stage : Stage → List StageOutcome → Option StageOutcome
find_stage wanted [] = none
find_stage wanted (o ∷ rest) = if stage_eq o.stage wanted then some o else find_stage wanted rest
