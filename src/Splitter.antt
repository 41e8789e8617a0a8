-- ===== src/Splitter.antt =====
-- internal/splitter: diffs cut into files, hunks and chunks, and made smaller before a review.
pub mod Types
pub mod Files
pub mod Hunks
pub mod Group
pub mod Spaces
pub mod Preprocess
