-- ===== src/Dkms/Tests.antt =====
-- Stores on which the theorems about the keys of a DKMS are used.
mod Stores
mod Buffers
