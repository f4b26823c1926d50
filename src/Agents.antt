-- ===== src/Agents.antt =====
-- The agent graph, src/invoice_agent/agents: its state, its nodes and their order.
pub mod State
pub mod World
pub mod Extract
pub mod Enrich
pub mod Decide
pub mod Journal
pub mod Attempts
pub mod Balance
pub mod Post
pub mod Receivable
pub mod Graph
pub mod ReceivableGraph
pub mod Kept
pub mod KeptDecide
pub mod Runs
pub mod Reach
pub mod Guard
pub mod Effects
pub mod Replay
pub mod Cash
pub mod Applied
pub mod Resume
pub mod Live
pub mod LiveNodes
pub mod Settled
pub mod Closing
pub mod Settling
pub mod SettledCash
pub mod Rests
pub mod Rejection
