-- ===== src/Comet.antt =====
-- comet: the connection server. It reads messages from terminals, keeps a session for each
-- registered one, pushes messages down and stores those that cannot be delivered.
pub mod Tcp
pub mod Ident
pub mod Session
pub mod State
pub mod Downlink
pub mod Apns
pub mod Uplink
pub mod Ws
pub mod Receive
pub mod Watch
pub mod Dispatch
pub mod Routes
