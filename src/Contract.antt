-- ===== src/Contract.antt =====
-- integrations/vllm/src/kapsl_vllm_connector/contract.py
pub mod Checks
pub mod Segments
pub mod Shard
pub mod Resize
pub mod Attachment
pub mod Requests
pub mod Elastic
pub mod Version
pub mod Receipt
pub mod Capacity
pub mod Topology
pub mod Registration
pub mod Messages
pub mod Examples
pub mod Accepted
