-- ===== src/Filter.antt =====
-- internal/filter: what is taken out of payloads and answers before the model reads them.
pub mod Values
pub mod Chain
pub mod Registry
pub mod Payload
pub mod Response
