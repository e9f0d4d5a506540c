-- ===== src/Printer.antt =====
-- internal/printer: the reports as the bytes that are written, in order. `fmt.Fprintf(w, …)` is an
-- append to the text so far.
pub mod Format
pub mod General
pub mod Attributes
pub mod ErrorLog
pub mod SelfTest
pub mod Ata
pub mod Nvme
pub mod Tables
