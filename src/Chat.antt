-- ===== src/Chat.antt =====
-- Support chat: internal/chat and internal/services/chat_service.go.
pub mod Hub
pub mod Identity
pub mod Service
