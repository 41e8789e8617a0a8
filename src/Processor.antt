-- ===== src/Processor.antt =====
-- internal/processor: from the comments of a review to the comments that are posted.
pub mod Markers
pub mod Tables
pub mod Existing
pub mod Merger
pub mod Posting
pub mod Processing
