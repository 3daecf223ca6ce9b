-- ===== src/Mchain.antt =====
-- Message chains: dev/so_5/impl/mchain_details.hpp.
pub mod Queue
pub mod Unlimited
pub mod LimitedDynamic
pub mod LimitedPreallocated
pub mod Equivalence
pub mod Chain
mod Tests
