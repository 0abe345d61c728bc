-- ===== src/Workspace.antt =====
-- internal/workspace: the removal of a workspace, and what is printed with credentials redacted.
pub mod Paths
pub mod Removal
pub mod Redaction
