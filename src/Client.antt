-- ===== src/Client.antt =====
-- src/client.cpp and client.hpp: one connected application.
pub mod Framing
pub mod Commands
