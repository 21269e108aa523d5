-- ===== src/Memory.antt =====
-- Ownership of objects: the counted references that the tasks share.
pub mod Refer
