-- ===== src/Telephony.antt =====
-- src/openvoice/telephony: the bridge between a call's audio and the conversation.
pub mod Agent
pub mod Call
pub mod Speech
mod Tests
