-- ===== src/Dispatch.antt =====
-- scripts/github_workflow_dispatch.py: a workflow is dispatched at most once, although the client
-- may fail after the server has accepted the request.
pub mod Lookup
pub mod Confirm
pub mod Once
