-- ===== src/SharedPool.antt =====
-- integrations/vllm/src/kapsl_vllm_connector/shared_pool.py
pub mod Blocks
pub mod Worker
pub mod Vmm
pub mod Binding
pub mod Views
