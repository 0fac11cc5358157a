-- ===== src/Kernel.antt =====
-- The kernel proper: tasks, scheduling, signals and process identity (kernel/).
pub mod Task
pub mod Sched
pub mod Signal
pub mod Wait
pub mod Identity
pub mod Format
pub mod Fork
