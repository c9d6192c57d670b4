-- ===== src/Planning.antt =====
-- integrations/vllm/src/kapsl_vllm_connector/planning.py
pub mod Errors
pub mod Checked
pub mod Types
pub mod Validity
pub mod Geometry
pub mod Policy
pub mod Sizing
pub mod Plan
