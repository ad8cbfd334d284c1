-- ===== src/StorePath.antt =====
-- crates/garret-common/src/lib.rs and wire.rs: store path names, Nix's base32, the framing of an
-- upload's preamble, and the file names of the substituter.
pub mod Split
pub mod Base32
pub mod Frame
pub mod Files
pub mod Names
mod Tests
