-- ===== src/Transport.antt =====
-- transport/: how a licence text reaches the device, as lines of a serial port or as chunks.
pub mod Line
pub mod Chunk
