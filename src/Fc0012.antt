-- ===== src/Fc0012.antt =====
-- sdrgg_fc0012.cpp and sdrgg_fc0012_internal.h, the FC0012 tuner codec.
pub mod Loc
pub mod Ratio
pub mod Wire
pub mod Session
pub mod Law
pub mod Frame
