-- ===== src/Template.antt =====
-- execution/template/engine.go: references to the results of earlier steps in the arguments of a
-- step, and the coercion of texts to numbers.
pub mod Numbers
pub mod Names
pub mod Fields
pub mod Resolve
mod Tests
