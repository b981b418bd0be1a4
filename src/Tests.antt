-- ===== src/Tests.antt =====
-- The theorems at concrete inputs: scripts of replies on which the programs run to the end.
mod Scripts
mod Exchange
mod Example03
mod Rdmacm05
mod Rdmacm04
mod Rdmacm03
mod Rdmacm01
mod Loops
mod Examples
mod Progress
mod Ledger
mod Logging
mod Rounds
