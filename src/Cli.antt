-- ===== src/Cli.antt =====
-- cmd/grafaincli: how the command line tool reads and writes its values, and its commands. The texts of
-- its errors are not modelled: an error is `none`.
pub mod Sequence
pub mod Fraction
pub mod Stream
pub mod Keys
pub mod Query
pub mod Commands
pub mod Batch
pub mod Proposal
pub mod Governance
pub mod Multisig
pub mod Create
pub mod Submit
pub mod View
pub mod Key
pub mod Flags
pub mod Main
