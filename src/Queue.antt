-- ===== src/Queue.antt =====
-- Asterisk/11/19/app_queue.c.
pub mod Types
pub mod Settings
pub mod Name
pub mod Line
pub mod Members
pub mod Roster
pub mod Reload
pub mod Persist
pub mod Realtime
pub mod Hash
pub mod Exit
pub mod State
pub mod Metric
pub mod Ring
pub mod Turn
pub mod Penalty
pub mod Periodic
pub mod Wait
pub mod Try
pub mod Answer
pub mod Calling
pub mod Exec
pub mod Stats
pub mod Say
