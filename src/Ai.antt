-- ===== src/Ai.antt =====
-- mt5_agent/ai: Json holds the values that a model answers, Llm the requests and responses, Prompt
-- the context in the request, Answer the strict reading of an answer, Planner the planner round it;
-- Http is the transport, OpenAi and Gemini are the providers over it, Factory chooses one.
pub mod Json
pub mod Llm
pub mod Http
pub mod Envelope
pub mod OpenAi
pub mod Gemini
pub mod Factory
pub mod Answer
pub mod Prompt
pub mod Planner
mod Tests
