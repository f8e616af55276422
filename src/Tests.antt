-- ===== src/Tests.antt =====
-- Concrete data, and the theorems of the development applied to it.
mod Fixtures
mod Engine
mod Records
mod Governed
mod Settings
mod Routes
mod Sessions
mod Separators
mod Writers
mod Secrets
mod Reports
mod Processes
