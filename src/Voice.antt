-- ===== src/Voice.antt =====
-- livekit/voice-bot.service.ts: what the bot keeps of a room.
pub mod Conversation
pub mod Turns
pub mod Screens
pub mod Captures
pub mod Speaking
pub mod Silence
pub mod Alerts
pub mod Silences
pub mod Wav
pub mod Waves
pub mod Diagrams
pub mod Statements
mod Tests
