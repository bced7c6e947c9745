-- ===== src/Tests.antt =====
-- Tests: the theorems of the library at concrete inputs.
mod Samples
mod Wire
mod Http
mod Connections
mod Loops
mod Tables
mod Services
mod Threads
mod Running
mod Programs
mod Leaving
mod Nodes
mod Printing
mod Departing
