-- ===== src/Store.antt =====
-- internal/store: the tables, and the operations on tasks.
pub mod Workflows
pub mod Definitions
pub mod Db
pub mod State
pub mod Insert
pub mod Merge
pub mod Chain
pub mod Delivery
pub mod Delete
pub mod Create
pub mod Edit
pub mod Order
pub mod Queue
pub mod Roles
