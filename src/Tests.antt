-- ===== src/Tests.antt =====
-- Runs of the program's parts on concrete inputs.
mod Community
mod Channel
mod Dht
mod Node
mod Handler
mod Sync
mod Dm
mod State
