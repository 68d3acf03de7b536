-- ===== src/Swap.antt =====
-- The atomic swap client, atomicswap: the scripts it builds and reads (script.h, script.cpp), its
-- contracts (atomicswap.cpp), and its hexadecimal text (key.h, script.cpp).
pub mod Script
pub mod Contract
pub mod Hex
pub mod Spend
