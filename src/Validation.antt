-- ===== src/Validation.antt =====
-- Hard validation of the model's judgments (data-pipeline/data_pipeline/validation/).
pub mod Evidence
pub mod Fields
pub mod Rules
pub mod Passes
pub mod Judgments
mod Examples
