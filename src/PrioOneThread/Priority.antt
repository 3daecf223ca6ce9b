-- ===== src/PrioOneThread/Priority.antt =====
-- The priorities of priority.hpp.
use sobjectizer.Base.{ℕ, ◌<◌, arith}

pub data Priority : Type 0 where
  p0 p1 p2 p3 p4 p5 p6 p7 : Priority

abbrev pub to_size_t : Priority → ℕ
to_size_t p0 = 0
to_size_t p1 = 1
to_size_t p2 = 2
to_size_t p3 = 3
to_size_t p4 = 4
to_size_t p5 = 5
to_size_t p6 = 6
to_size_t p7 = 7

abbrev pub total_priorities_count : ℕ
total_priorities_count = 8

pub to_size_t-bound : (p : Priority) → to_size_t p < total_priorities_count
to_size_t-bound p0 = omega arith
to_size_t-bound p1 = omega arith
to_size_t-bound p2 = omega arith
to_size_t-bound p3 = omega arith
to_size_t-bound p4 = omega arith
to_size_t-bound p5 = omega arith
to_size_t-bound p6 = omega arith
to_size_t-bound p7 = omega arith
