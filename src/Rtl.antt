-- ===== src/Rtl.antt =====
-- sdrgg_rtl.cpp, the RTL2832U baseband engine, in the order of the file.
pub mod Transport
pub mod Tuner
pub mod Ppm
pub mod Gpio
pub mod Nco
pub mod Boot
pub mod Rate
pub mod Exact
pub mod Frame
pub mod Quiet
