-- ===== src/Models.antt =====
-- internal/models: the data that the services, the repository and the transport share.
pub mod Json
pub mod PrimaryKey
pub mod Events
pub mod State
