-- ===== src/Gear.antt =====
-- src/gear: the objects that describe the hardware to the game.
pub mod Cpu
pub mod Topology
pub mod Score
pub mod Scored
pub mod Graphics
pub mod Heap
pub mod Hardware
pub mod Owned
pub mod Lifetime
pub mod Released
