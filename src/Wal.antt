-- ===== src/Wal.antt =====
-- internal/adapter/repository/wal/wal_repository.go. The state and the helpers stand in `Files`
-- and `Segments`, the exported methods in `Methods`.
pub mod Files
pub mod Segments
pub mod Methods
pub mod Budget
pub mod Removal
pub mod Emptied
pub mod Newest
pub mod Opened
pub mod Clock
pub mod Closed
pub mod Dated
pub mod Distinct
pub mod Journal
pub mod Torn
pub mod Log
