-- ===== src/Ownership.antt =====
-- internal/ownership/marker.go
pub mod Pattern
pub mod Escape
pub mod Marker
