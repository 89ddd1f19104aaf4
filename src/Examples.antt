-- ===== src/Examples.antt =====
-- The theorems at concrete inputs, and the test data they are applied to.
mod Data
mod Tables
mod Programs
mod VirtualDisk
mod Volumes
mod Interrupts
mod Registers
mod Uart
mod Locks
mod Memory
mod Calls
mod Guests
