-- ===== src/Reporter.antt =====
-- The operations reporter of components/xray_ops.
pub mod Rules
