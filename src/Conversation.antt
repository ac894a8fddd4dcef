-- ===== src/Conversation.antt =====
-- The Conversation Service (services/conversation-service/conversation_service): conversations,
-- their messages, input requests and presentation events.
pub mod State
pub mod Requests
pub mod Events
pub mod Steps
pub mod Sequences
pub mod Effects
pub mod Endings
mod Tests
