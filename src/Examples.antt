-- ===== src/Examples.antt =====
-- Runs of the model on concrete inputs, and applications of the theorems to them.
mod Setup
mod KeyRing
mod Texts
mod Crypto
mod Stores
mod Pulls
mod Schedules
mod Streams
mod Requests
mod ZoneRequests
mod KeyRequests
mod Erasures
mod RainDrops
mod LocalFiles
mod Limits
mod Reads
mod Exports
mod Signups
mod Sessions
mod Trails
mod Syncs
