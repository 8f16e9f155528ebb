-- ===== src/Ua.antt =====
-- ua: the terminals that the repository brings for trying the servers out.
pub mod Android
