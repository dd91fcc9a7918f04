-- ===== src/Server.antt =====
-- The parts of src/server.
pub mod Command
pub mod Db
pub mod Notify
pub mod PubSub
pub mod Transactions
pub mod Dispatch
