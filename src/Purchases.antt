-- ===== src/Purchases.antt =====
-- internal/purchases and internal/repository/purchases.go: what a purchase pays, and how it is
-- credited.
pub mod Catalog
pub mod Store
pub mod Ledger
pub mod Replays
pub mod Handler
