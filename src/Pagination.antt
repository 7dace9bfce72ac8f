-- ===== src/Pagination.antt =====
-- Lists in pages: runtime/pagination.go (Params: what a request asks for) and db/pagination.go
-- (Pages: offset pages and keyset pages of a table).
pub mod Params
pub mod Pages
mod Tests
