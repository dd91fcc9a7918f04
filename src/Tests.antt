-- ===== src/Tests.antt =====
-- Runs of the modelled code on concrete inputs.
mod Core
mod Integers
mod Net
mod Server
mod Channels
mod Watching
mod Wire
mod Tables
mod Packs
mod Commands
mod Dispatching
