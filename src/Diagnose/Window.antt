-- ===== src/Diagnose/Window.antt =====
-- The analyses of internal/diagnose/diagnose.go that cut the diagnostic period into pieces:
-- `analyzeTimeline`, `detectBursts`, `analyzeConnectionPattern` and `analyzeIOPattern`.
pub mod Time
pub mod Timeline
pub mod Bursts
pub mod Pattern
