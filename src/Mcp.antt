-- ===== src/Mcp.antt =====
-- src/rif_runtime/mcp: the capability taxonomy and the Metasploit governor.
pub mod Capabilities
pub mod Intent
pub mod Governor
pub mod Corpus
