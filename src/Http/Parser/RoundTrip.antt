-- ===== src/Http/Parser/RoundTrip.antt =====
-- The parser reads back every request of the grammar.
pub mod Line
pub mod Head
pub mod Rounds
pub mod Get
pub mod Post
