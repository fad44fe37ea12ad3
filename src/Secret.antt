-- ===== src/Secret.antt =====
-- Hidden secrets: pictures behind nine shutters that players open one by one.
pub mod Rules
pub mod Statements
pub mod Store
pub mod Reveal
pub mod Outcome
pub mod Sound
pub mod Board
pub mod Admin
pub mod Handler
pub mod Galleries
