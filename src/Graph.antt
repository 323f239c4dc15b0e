-- ===== src/Graph.antt =====
-- src/ticketflow/graph.py: the ticket workflow. A node is an action that may suspend by `interrupt`
-- or raise; LangGraph's part, as documented, is `Graph/Drive`.
pub mod Action
pub mod Dispatch
pub mod Payloads
pub mod Nodes
pub mod Drive
pub mod Fuel
pub mod Resumes
pub mod Bound
pub mod Entry
pub mod Taken
pub mod Threads
pub mod Keeps
pub mod Calling
pub mod Traced
pub mod Course
pub mod Authority
pub mod Resolution
