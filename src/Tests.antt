-- ===== src/Tests.antt =====
-- Runs of the definitions on concrete inputs.
mod Lexing
mod Running
mod Tables
mod Processes
mod Transfers
mod Editing
mod Files
mod Storage
mod Commands
