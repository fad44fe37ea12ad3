-- ===== src/Paging.antt =====
-- Windows over lists: the query of a request, and the rows that it gets.
pub mod Page
pub mod Window
