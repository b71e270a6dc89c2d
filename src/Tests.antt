-- ===== src/Tests.antt =====
-- Runs of the modelled code on small inputs, and the theorems at inputs where their hypotheses hold.
mod Wire
mod Moves
mod Trees
mod Pointers
mod Settings
mod Handshakes
mod Queues
mod Vectors
mod Tables
mod Peers
mod Transfers
mod Sessions
mod Jobs
