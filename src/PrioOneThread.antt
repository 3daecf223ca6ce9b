-- ===== src/PrioOneThread.antt =====
-- Dispatchers with one thread and priorities: dev/so_5/priority.hpp and dev/so_5/disp/prio_one_thread.
pub mod Priority
pub mod StrictlyOrdered
pub mod QuotedRoundRobin
mod Tests
