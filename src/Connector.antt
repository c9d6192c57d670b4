-- ===== src/Connector.antt =====
-- integrations/vllm/src/kapsl_vllm_connector/connector.py
pub mod Leases
pub mod Resizes
pub mod Worker
pub mod Ranks
