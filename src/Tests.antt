-- ===== src/Tests.antt =====
-- The theorems on concrete inputs.
mod Tasks
mod Storage
mod Access
mod Upload
mod Archive
mod Schema
mod Server
mod Templates
mod Users
mod Cleanup
