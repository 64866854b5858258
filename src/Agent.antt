-- ===== src/Agent.antt =====
-- relay/agent: the diagnosis of endpoints that fail: its trigger and budgets, the model's client, the
-- tools, and the graph that uses them.
pub mod Trigger
pub mod Chat
pub mod LangChain
pub mod Llm
pub mod Statistics
pub mod Findings
pub mod Tools
pub mod Prompts
pub mod State
pub mod Loop
pub mod Graph
