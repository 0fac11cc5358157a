-- ===== src/Kernel/Sched.antt =====
-- schedule() and do_timer() (kernel/sched.c), event_sync() (kernel/sync.c).
mod Defs
unfoldable pub use Defs.*
pub mod Pick
pub mod Choice
pub mod Reap
pub mod Timer
mod Examples
