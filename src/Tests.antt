-- ===== src/Tests.antt =====
-- Tests of the model, and the theorems at concrete inputs.
mod Activity
mod Gateway
mod Codex
mod Workspace
mod Disk
mod Server
mod Runtime
mod Adapter
