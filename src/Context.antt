-- ===== src/Context.antt =====
-- context/: the token count and the composer of the memory block.
mod Examples
pub mod Text
pub mod Tokens
pub mod Composer
pub mod Compose
