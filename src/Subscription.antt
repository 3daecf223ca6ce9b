-- ===== src/Subscription.antt =====
-- Subscription storages of an agent: dev/so_5/impl/subscription_storage_iface.hpp and
-- dev/so_5/impl/subscr_storage_*.cpp.
pub mod Iface
pub mod Lists
pub mod VectorBased
pub mod MapBased
pub mod Adaptive
pub mod Agreement
mod Tests
pub mod Sort
