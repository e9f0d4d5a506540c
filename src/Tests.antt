-- ===== src/Tests.antt =====
-- Sample answers of drives, and the theorems at them.
mod Samples
mod AtaCases
mod NvmeCases
mod PrinterCases
mod DeviceCases
mod MainCases
mod ProgramCases
mod ExitCases
