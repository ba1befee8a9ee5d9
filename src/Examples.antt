-- ===== src/Examples.antt =====
-- The programs of examples/.
pub mod Inbox
pub mod Choice
pub mod Simple
pub mod Rr
pub mod Ps
pub mod Bc
pub mod SockAddress
pub mod Msg
