-- ===== src/Telegram.antt =====
-- internal/transport/telegram, the adapter to the Telegram Bot API.
pub mod Markdown
pub mod Blocks
pub mod Render
pub mod Html
pub mod Placed
pub mod Pieces
pub mod Nesting
pub mod Plain
pub mod Entities
pub mod Updates
pub mod Mentions
pub mod Inbound
pub mod Send
pub mod Dispatch
pub mod Scope
pub mod Cascade
pub mod Clicks
pub mod Stripped
mod Tests
