-- ===== src/Client.antt =====
-- client/: the download of an artifact.
pub mod Resumer
