-- ===== src/Cli.antt =====
-- The command line (cli/): its program, its commands, and the tables it prints.
pub mod Float
pub mod Value
pub mod Session
pub mod Selector
pub mod Selected
pub mod Undo
pub mod Statement
pub mod Command
pub mod Entry
pub mod Safe
pub mod Orderly
pub mod Sent
pub mod Modest
pub mod Codes
pub mod Scanned
pub mod Erasure
pub mod Render
pub mod Rounding
pub mod Widths
pub mod Aligned
pub mod Confirmed
