-- ===== src/Http/Parser/Total.antt =====
-- Where the parser returns.
pub mod Head
mod Untouched
pub mod Whole
