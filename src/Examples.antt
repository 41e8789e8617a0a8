-- ===== src/Examples.antt =====
-- Tests of the definitions, and the theorems at concrete inputs.
mod Splitting
mod Storing
mod Starting
mod Serving
mod Tooling
mod Preprocessing
mod Validating
mod Merging
mod Reviews
mod Posting
mod Delivery
mod Requests
mod Pipelines
mod Connecting
mod Filtering
