-- ===== src/Alert.antt =====
-- internal/alert: the rules, the Telegram sender and the command bot.
pub mod Rules
pub mod Telegram
pub mod CommandBot
