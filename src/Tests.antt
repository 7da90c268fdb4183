-- ===== src/Tests.antt =====
-- Runs of the definitions at concrete inputs, and each theorem at one.
mod Client
mod Modem
mod Publication
mod Store
mod Runtime
mod Node
mod Sharing
mod Settings
