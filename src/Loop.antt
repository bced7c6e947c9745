-- ===== src/Loop.antt =====
-- include/wshttp/loop.hpp and src/loop.cpp: the event loop. The children have its job queue, and
-- its timers.
pub mod Jobs
pub mod Timers
pub mod Waker
pub mod Thread
