-- ===== src/Migrations.antt =====
-- db/migrations.go: versioned SQL migrations. Files (reading the directory), Statements (splitting
-- the SQL of a file) and Runner (Status, Up and Down).
pub mod Statements
pub mod Files
pub mod Runner
mod Tests
