-- ===== src/Session.antt =====
-- Attendance sessions: when one is open to scans, how it is opened, scanned into, closed and swept.
pub mod Window
pub mod Store
pub mod Repository
pub mod Invariant
pub mod Steps
pub mod Service
pub mod Scan
pub mod Sweep
