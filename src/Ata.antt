-- ===== src/Ata.antt =====
-- internal/ata: the parsers of the 512-byte answers of an ATA drive, and the attribute names.
pub mod Sector
pub mod Attribute
pub mod Smart
pub mod Corruption
pub mod Thresholds
pub mod ErrorLog
pub mod SelfTest
pub mod Attr
pub mod Lookup
pub mod Identify
