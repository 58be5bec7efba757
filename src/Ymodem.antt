-- ===== src/Ymodem.antt =====
-- modem/ymodem.cpp and modem/ymodem.h.
pub mod Uart
pub mod Tests
pub mod Packet
pub mod Transmit
pub mod Receiver
