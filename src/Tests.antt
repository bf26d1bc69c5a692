-- ===== src/Tests.antt =====
-- The theorems at concrete inputs, a file for each part of the program.
mod Crc
mod State
mod Matrix
mod Bench
mod Calc
mod List
mod Text
mod Memory
mod Sort
mod Main
mod App
mod Dhrystone
mod Embench
mod Whole
mod Format
