-- ===== src/Tasks.antt =====
-- qmdb/src/tasks: the tasks of a block, and the hub of the two blocks in flight.
pub mod Manager
pub mod Hub
