-- ===== src/Syscalls/Same.antt =====
-- Nothing is lost on the way of a call, by the trap or directly.
