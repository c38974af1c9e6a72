-- ===== src/Tests.antt =====
-- Concrete inputs: each theorem with a hypothesis or an argument, applied at one of them.
mod Names
mod Core
mod History
mod Sync
mod Txt
mod Service
mod Api
