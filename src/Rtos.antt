-- ===== src/Rtos.antt =====
-- rtos/bsp: the C library functions and the console under the real-time kernel.
pub mod Libc
pub mod Console
pub mod Halt
pub mod Kernel
pub mod App
