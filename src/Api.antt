-- ===== src/Api.antt =====
-- api/: the endpoints. The files below model the memory endpoints of api/memories.py.
mod Examples
pub mod Memories
pub mod Chat
