-- ===== src/Pipeline.antt =====
-- internal/pipeline: the diff of a pull request, and the reviews that are asked of the model.
pub mod Prompts
pub mod Rules
pub mod Types
pub mod Chunks
pub mod Degradation
pub mod Stages
