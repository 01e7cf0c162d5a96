-- ===== src/Lib.antt =====
-- llm-mt5-agent: a model of the trading agent (src/mt5_agent) from its services to its orders.
--
-- In the program an agent repeats cycles over its symbols. A cycle observes the market and the
-- account, runs the strategies, asks a planner for a proposal, which asks a language model and reads
-- its answer strictly, lets a supervisor approve or refuse the proposal by deterministic rules, and
-- hands an approved decision to an executor, which turns it into at most one order of the
-- MetaTrader 5 terminal. The cycle writes memories on its way and reports to a watchdog, which halts
-- the agent.
--
-- Parts, with the file of src/mt5_agent that each models:
--   Prelude    tests, lists, integers over the native numbers and Python's strings, for all parts.
--   Python     exceptions as values (domain/errors.py, ai/errors.py), `float` as an interface, aware
--              datetimes as microseconds of UTC; Bind keeps a sequence of statements shut in proofs;
--              Step has statements that change a state, `try` with its handler included; Ends and
--              Obeys are rules for what a statement returns, raises and keeps.
--   Domain     the records of domain/account.py, market.py, trading.py, strategy.py, planning.py,
--              execution.py, agent.py, memory.py and terminal.py; `new_x` is the constructor with
--              its `__post_init__`.
--   Risk       Config (risk/config.py), Verdict (risk/result.py), Context (risk/context.py), Rules
--              (risk/rules.py, one function for the `check` of each rule; Spec states what each rule
--              demands without its code), Engine (risk/engine.py: `validate`), Supervisor
--              (risk/supervisor.py: `check`, `review`, with the ledger as state).
--   Ai         Json (the values of a parsed answer), Llm (ai/models.py, ai/provider.py), Answer
--              (`validate_proposal` of ai/planner.py), Prompt (`build_user_prompt`), Planner
--              (`LLMPlanner.plan`), Http (ai/http.py), Envelope (what the providers share, ai/shared.py
--              included), OpenAi (ai/openai_compat.py), Gemini (ai/gemini.py) and Factory
--              (ai/factory.py).
--   Execution  Session (the terminal and the connection port as parameters over a state of the
--              outside world, `load_mt5` of infrastructure/mt5/module.py), Reply, Records, Live
--              (`_execute_live`) and Executor (`execute`, `_run`) of execution/executor.py.
--   Strategies Strategy (strategies/base.py), MeasureMove (strategies/measure_move.py), Null
--              (strategies/null_strategy.py) and Service (application/strategy_service.py).
--   Memory     Store (memory/sqlite_store.py: the table as a list of rows, the newest first, and the
--              SQL statements by what they mean) and Facades (memory/memories.py).
--   Logging    the scrubbing of secrets of logging_utils.py.
--   Infrastructure  Connection (infrastructure/mt5/connection_adapter.py), Mappers (mappers.py, its
--              children Account, Market and Trading the mappers of mappers.py, market_mappers.py and
--              trading_mappers.py, the others their proofs) and Feed (what the two adapters share; its
--              children Market and Trading are market_adapter.py with timeframes.py, and
--              trading_adapter.py).
--   Application  Agent (application/agent.py: Parts has the observer and the context builder, State
--              what changes, Stages one function for each stage, Cycle `run_cycle`, Loop `run`; Seen
--              says what a cycle observed and planned without that code),
--              Services (market_service.py, position_service.py, order_service.py,
--              account_service.py and history_service.py), Health (health.py), Watchdog
--              (watchdog.py) and Connection (connection_service.py, over the port of
--              domain/ports.py; its child Adapted runs it on the adapter of Infrastructure).
--   Samples and the Tests modules hold concrete values and runs.
--
-- The agent's model calls those of the strategies, the supervisor, the executor and the watchdog
-- themselves; the services, the memories and the planner come to it as functions that may raise and
-- may change the outside world.
--
-- The definitions take any carrier of floats with its operations, so no law of real numbers is used
-- where a double has none; a theorem that needs a law has it as a hypothesis (`IsOrdered`,
-- `HasLiterals`), which the sample carrier `Decimal` fulfils, NaN included. The time that a method
-- reads from the clock, a fresh id and `repr` are arguments. One clock value stands for the moments
-- of one call, and of one cycle. Tickets and retcodes are natural numbers. What a call of the
-- terminal answers, raises or changes is not assumed. A session's `sent` and `touched` are logs for
-- the theorems and no state of the program. The loops are structural recursion, but for the agent's
-- `run`, which has no bound of its own: it takes fuel, one unit for each turn, and n + 1 units are
-- enough where `max_cycles` is n or a stop is requested by turn n.
--
-- What answers from outside is an argument: the functions of the terminal's module and of a
-- connection, what `urlopen` does, json and bytes, and the conversions of a value by `int`, `float`,
-- `str` and `repr` and of a time. Where a theorem needs what Python documents of a conversion, the
-- exceptions that it raises, that is a hypothesis (`IsDocumented`). An object of the terminal is given
-- by the fields that its mapper finds, and the integers among them are not negative.
--
-- Not modelled: audit and log lines with their formatters, naive datetimes, record fields that no
-- modelled code reads (`comment` of an order request, `details` of a snapshot, `data` of a stage
-- outcome and of a memory record, the attributes of an LLM error), the text of the system prompt (an
-- argument of `plan`); settings, which pydantic reads and checks, with the provider that they choose;
-- and the dashboard and the scripts, which are input and output.
mod Prelude
pub mod Python
pub mod Domain
pub mod Risk
pub mod Logging
pub mod Memory
pub mod Strategies
pub mod Ai
pub mod Execution
pub mod Infrastructure
pub mod Application
mod Samples
