-- ===== src/Tests.antt =====
-- Runs of the model on concrete inputs, and each theorem at an input that meets its hypotheses.
mod Queues
mod Dispatchers
mod Watchdogs
mod Fleets
mod Criticals
mod Listeners
mod Kits
mod Hooks
mod Pauses
mod Races
mod Examples
