-- ===== src/NfcTransport.antt =====
-- include/modem/nfc_transport.h and src/nfc_transport.c: the transport over NFC, with a ring of
-- 1024 bytes in each direction and one NDEF record for what is written.
-- The T4T library of the SDK is a parameter: what its setup and start calls return.
pub mod Record
pub mod Receive
pub mod Transmit
pub mod Queue
pub mod Roundtrip
pub mod Poll
mod Examples
