-- ===== src/Memory/Heap.antt =====
-- The heap of the system: its definitions and what holds of them.
mod Defs
mod Init
unfoldable pub use Defs.*
pub use Init.*
