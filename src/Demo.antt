-- ===== src/Demo.antt =====
-- The demo game: its bridge to the shim and its gate (demo_game/).
pub mod Floats
pub mod Objects
pub mod Frame
pub mod Play
pub mod Crowd
pub mod Limits
pub mod Fitness
pub mod Balance
pub mod Armed
pub mod Sound
pub mod Bridge
pub mod Gate
pub mod Threads
pub mod Launch
