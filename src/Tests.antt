-- ===== src/Tests.antt =====
-- Runs of the model on small inputs, one module per part of the program. The store is the one of
-- `Weave.Sample`.
mod Permissions
mod Bindings
mod Access
mod Artifacts
mod Admission
mod Client
mod Cli
mod Genesis
mod Messages
mod Commands
mod Pipes
mod App
mod Stack
mod Race
