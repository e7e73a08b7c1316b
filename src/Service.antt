-- ===== src/Service.antt =====
-- service/: the services that answer the requests of MCP clients and of the operator.
pub mod Policy
pub mod Operator
pub mod UndoStore
pub mod Discovery
pub mod AbuseBounds
