-- ===== src/Js.antt =====
-- The parts of JavaScript that the scripts of engines/k6 and workers/engines/k6 use: numbers,
-- texts, values and their conversions. They are defined by the language and not by the repository.
pub mod Number
pub mod Text
pub mod Outcome
pub mod Value
pub mod Fields
pub mod Naturals
pub mod Action
pub mod Sort
