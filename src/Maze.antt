-- ===== src/Maze.antt =====
-- The class MZ (Test00/MZ.h and Test00/MZ.cpp): its fields in `State`, its methods in the others.
pub mod State
pub mod Grid
pub mod Routes
pub mod Visual
pub mod Check
pub mod Stats
pub mod Load
pub mod Generate
pub mod Print
