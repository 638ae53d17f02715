-- ===== src/R820t.antt =====
-- sdrgg_r820t.cpp and sdrgg_r820t_internal.h, the R820T/R820T2 tuner codec.
pub mod Addr
pub mod Intents
pub mod Powerup
pub mod Path
pub mod Pll
pub mod Gain
pub mod Bandwidth
pub mod Codec
pub mod Mirror
pub mod ColdStart
pub mod Synth
pub mod Sdm
pub mod GainLaw
pub mod Frame
