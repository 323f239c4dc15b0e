-- ===== src/Examples.antt =====
-- Tests of the definitions on concrete inputs, and the theorems at inputs that meet their
-- hypotheses.
mod Queue
mod Runs
mod Worker
mod Workflow
mod Effects
mod Agent
mod Migrations
mod Api
mod Processes
mod Scripts
mod Logging
mod Drain
mod Course
mod Startup
mod Whole
