-- ===== src/Ports.antt =====
-- src/client/ServerPort.cpp and src/server/ClientPort.cpp: the messages between client and server.
pub mod MessageType
pub mod Encoding
pub mod Messages
pub mod Reads
pub mod Contexts
pub mod RoundTrip
pub mod Tests
