-- ===== src/Handler.antt =====
-- MZHandler (Test00/MZHandler.h and Test00/MZHandler.cpp): the program's work, in its two variants.
pub mod Constants
pub mod Fixed
pub mod Generated
pub mod Main
