-- ===== src/Drachtio.antt =====
-- The free functions of src/drachtio.cpp that the components share.
pub mod Addresses
pub mod UrlEncode
pub mod Messages
pub mod Uris
