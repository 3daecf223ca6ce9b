-- ===== src/Coop.antt =====
-- Cooperations: their repository, in dev/so_5/impl/coop_repository_basis.cpp.
pub mod Repository
pub mod Tests
