-- ===== src/Examples.antt =====
-- The theorems at concrete messages, sessions and stores, and runs of the definitions.
mod Data
mod Wire
mod Stream
mod Store
mod Uplink
mod Router
mod Web
mod Business
mod Older
mod Watch
mod Answer
mod Queue
mod Apple
mod Shared
