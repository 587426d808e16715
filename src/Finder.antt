-- ===== src/Finder.antt =====
-- The file finder: HWs/HW1/main.c.
pub mod Entry
pub mod Found
pub mod Paths
pub mod Printed
pub mod Regex
pub mod Search
pub mod Selected
pub mod Tree
pub mod Walk
