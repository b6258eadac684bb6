-- ===== src/Repository.antt =====
-- internal/infra/postgres/repository.go: the two repositories, as calls of the database. A
-- transaction (`ReconcileStatus`, `ClaimCompleted`) is one call: it commits whole or not at all.
pub mod Sessions
pub mod Steps
