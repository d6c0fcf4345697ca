-- ===== src/Tests.antt =====
-- The theorems at concrete inputs, over servers that are functions from keys to values.
mod Servers
mod Streaming
mod Tracing
mod Serving
mod Dashboard
mod Topics
mod Reconnecting
mod Subscribing
mod Batching
mod Rules
mod Backlog
mod Caching
mod Breaker
mod Connections
mod Queue
mod Client
mod Providers
