-- ===== src/Router.antt =====
-- The router: the pool of comets, the calls of the comets, and the choice of a comet for a terminal.
pub mod Pool
pub mod Rpc
pub mod Http
pub mod Nsq
pub mod Login
pub mod Handler
pub mod Exit
pub mod Dispatch
pub mod Watch
