-- ===== src/Packaging.antt =====
-- integrations/ort/packaging
pub mod Closure
