-- ===== src/Syscalls/Examples.antt =====
-- Calls to the example kernel.
