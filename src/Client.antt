-- ===== src/Client.antt =====
-- integrations/vllm/src/kapsl_vllm_connector/client.py
pub mod Frame
pub mod Rpc
pub mod Poll
pub mod Register
pub mod Calls
pub mod Examples
