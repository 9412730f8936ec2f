-- ===== src/Capture.antt =====
-- capture/, graphs/capture_graph.py and graphs/capture_state.py: how a turn becomes rows of `memories`.
mod Examples
pub mod Extract
pub mod Pii
pub mod Evaluate
pub mod Embed
pub mod Retries
pub mod Graph
pub mod Stages
pub mod Clean
pub mod Worker
