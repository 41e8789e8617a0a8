-- ===== src/Validator.antt =====
-- internal/validator/comment_validator.go: which lines of a diff a comment may be on. A map is the
-- list of its entries; where the code ranges over one, the order of the visit is a parameter.
pub mod Ranges
pub mod Names
pub mod Parse
pub mod Answers
pub mod Agree
