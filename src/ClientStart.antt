-- ===== src/ClientStart.antt =====
-- src/clientStartAdmission.ts: the durable record that binds a caller's start id to one run, or
-- fences it.
pub mod Records
pub mod Admission
