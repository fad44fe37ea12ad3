-- ===== src/Points.antt =====
-- internal/repository/users.go and checkin.go: experience, unlock points and daily check-ins.
pub mod Statements
pub mod Store
pub mod Balance
pub mod Checkins
pub mod Levels
pub mod Handler
pub mod Calendar
pub mod Streaks
