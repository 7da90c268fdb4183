-- ===== src/Modem.antt =====
-- internal/modem: the serial protocol between the host and the radio modem.
pub mod Cobs
pub mod Crc
pub mod Frame
pub mod Client
pub mod Decoder
pub mod Messages
