-- ===== src/Agent.antt =====
-- The node agent under agent/internal/.
pub mod LogBuf
pub mod Runtime
