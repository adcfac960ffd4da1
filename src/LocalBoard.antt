-- ===== src/LocalBoard.antt =====
-- Station/LocalBoard.cpp: the channels wired to this station. `Defs` has the two handler objects
-- (`lBoardParallel`, `lBoardSerial`) with the pin operations that they have made, oldest first.
mod Defs
pub mod Parallel
pub mod Serial
unfoldable pub use Defs.*
