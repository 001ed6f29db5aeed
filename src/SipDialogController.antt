-- ===== src/SipDialogController.antt =====
-- src/sip-dialog-controller.cpp and sip-dialog-controller.hpp: `SipDialogController`, which keeps the
-- SIP dialogs. Modelled are the calls that the thread of the clients makes
-- on it, and what runs on the thread of the stack.
pub mod Outbox
pub mod Liveness
pub mod TimerD
pub mod Thread
