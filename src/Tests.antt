-- ===== src/Tests.antt =====
-- The theorems at concrete inputs, and small programs that are run.
mod Connection
mod Programs
mod Instructions
mod Runs
mod Storage
mod Listing
mod Labels
mod SourceRun
mod DataSection
mod Loading
mod OnDisk
mod Sources
mod Serving
mod Linking
