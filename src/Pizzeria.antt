-- ===== src/Pizzeria.antt =====
-- The pizzeria of cw07/zad1: cooks and suppliers, processes that share an oven and a table under
-- five semaphores.
pub mod Shelf
pub mod Process
pub mod System
pub mod Counts
pub mod Goods
pub mod Invariant
pub mod Safety
pub mod Liveness
pub mod Posix
mod Tests
