-- ===== src/Http.antt =====
-- Handlers of internal/api, which answer a request by calls of the store.
pub mod Handler
pub mod Leaves
