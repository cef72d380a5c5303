-- ===== src/Tests.antt =====
-- Runs of the model on concrete inputs.
mod Data
mod Commit
mod Rollback
mod Begin
mod Tables
mod Locks
mod Wakes
mod Stacks
mod Lists
mod Files
mod Queues
mod Memory
mod Retries
mod Maps
mod Setup
