-- ===== src/Tests.antt =====
-- Runs of the code at small inputs, and the theorems at inputs that meet their conditions.
mod Libc
mod Frame
mod Kheap
mod Terminal
mod Paging
mod Vfs
mod Drivers
mod Fat
mod Shell
mod Devices
mod Reading
mod Programs
mod Files
