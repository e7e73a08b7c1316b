-- ===== src/Settings.antt =====
-- settings/: the policy that decides which operations an MCP client may use on which notes.
pub mod Types
pub mod Glob
pub mod NotebookIndex
pub mod Evaluator
pub mod Loader
