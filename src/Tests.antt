-- ===== src/Tests.antt =====
-- The theorems applied at concrete inputs, and runs of the model.
mod Rings
mod Devices
mod Numbers
mod Streams
mod Sessions
mod Ports
