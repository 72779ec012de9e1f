-- ===== src/Pkg.antt =====
-- The packages that the panel and the agent share (pkg).
pub mod Semver
