-- ===== src/Tests.antt =====
-- The theorems at concrete inputs: a small world behind the services, and one module for each part.
mod World
mod Queue
mod Consumers
mod Embeddings
mod Imports
mod Monitors
mod Exports
mod Hosts
mod Laws
mod Fingerprints
mod Batches
mod Fetching
mod Chunks
mod Replays
mod Searches
mod Qualities
mod Dashboards
