-- ===== src/Server.antt =====
-- The debug server of src/server.c.
pub mod Actions
pub mod Balance
pub mod Breakpoints
pub mod Continue
pub mod Cuts
pub mod Descriptors
pub mod Dispatch
pub mod Drain
pub mod Escape
pub mod Fields
pub mod Fits
pub mod Grow
pub mod Handles
pub mod Holdings
pub mod Idle
pub mod Interactive
pub mod Keys
pub mod Numbers
pub mod RegDump
pub mod Pages
pub mod Receive
pub mod Replies
pub mod Routes
pub mod Session
pub mod Start
pub mod Requests
pub mod Teardown
pub mod Text
pub mod Transfer
pub mod Unescape
