-- ===== src/Tests.antt =====
-- Runs at concrete inputs.
mod Consumer
mod Delivery
mod Process
mod Model
mod Torrent
mod Enrichment
mod Refresh
mod Command
mod Schema
mod Config
mod Startup
mod Rotation
mod Version
