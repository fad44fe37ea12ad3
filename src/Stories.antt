-- ===== src/Stories.antt =====
-- internal/repository/stories.go: stories, whose pages open one after the other.
pub mod Statements
pub mod Store
pub mod Pages
pub mod Rows
pub mod Order
pub mod Handler
