-- ===== src/Intent.antt =====
-- intent/intent-classifier.service.ts: what the classifier makes of a text.
pub mod Units
pub mod Patterns
pub mod Commands
pub mod Durations
pub mod Hangul
pub mod Similarity
mod Tests
