-- ===== src/Parsers.antt =====
-- The parsers of ngsi_adapter/lib/parsers.
pub mod Nagios
pub mod BaseParser
pub mod Factory
pub mod Bundled
pub mod Probe
pub mod CheckDisk
pub mod CheckLoad
pub mod CheckMem
pub mod CheckProcs
pub mod CheckUsers
