-- ===== src/Ech.antt =====
-- src/ech: the wire format of Encrypted Client Hello configurations.
pub mod Reader
pub mod Config
pub mod Pem
pub mod Key
pub mod Keygen
