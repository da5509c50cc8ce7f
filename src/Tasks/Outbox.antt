-- ===== src/Tasks/Outbox.antt =====
-- The durable outbox and the queue in front of it: src/tasks/dispatcher.rs and
-- src/tasks/periodic/outbox_pull.rs. `Table` has the state and the SQL statements, `Dispatcher` the
-- methods; the other modules prove what the methods keep and do.
pub mod Table
pub mod Dispatcher
pub mod Lookup
pub mod Selection
pub mod Claims
pub mod Keeps
pub mod PumpKeeps
pub mod Submit
