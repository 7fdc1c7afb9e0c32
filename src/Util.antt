-- ===== src/Util.antt =====
-- The kernel's helper library, util/.
pub mod HashTable
pub mod Strings
