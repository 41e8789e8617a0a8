-- ===== src/Webhook.antt =====
-- internal/webhook: from a request to the jobs of the worker pool.
pub mod Handler
pub mod Parser
pub mod Pool
pub mod System
