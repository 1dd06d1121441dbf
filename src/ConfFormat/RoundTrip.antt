-- ===== src/ConfFormat/RoundTrip.antt =====
-- What `DomSerializer` writes, `DomParser` reads back.
pub mod Strip
pub mod Tree
pub mod Printable
pub mod Render
pub mod Replay
pub mod Sections
pub mod Whole
