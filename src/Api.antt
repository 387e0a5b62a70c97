-- ===== src/Api.antt =====
-- backend/pullbackup/api/tasks.py and api/sources.py: the requests that change tasks and sources. FastAPI
-- refuses a payload that does not validate with 422; a handler that holds the lifecycle lock is one step.
pub mod Payload
pub mod Tasks
pub mod Sources
pub mod Locked
pub mod Linked
pub mod Integrity
pub mod Requests
mod Examples
