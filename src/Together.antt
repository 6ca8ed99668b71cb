-- ===== src/Together.antt =====
-- `stprov local` and `stprov remote` together (subcmd/local, subcmd/remote, internal/api).
pub mod Client
pub mod Keys
pub mod Recorded
pub mod Told
