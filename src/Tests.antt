-- ===== src/Tests.antt =====
-- Concrete runs: the theorems applied to small tasks, timers and streams.
mod Sample
mod Errors
mod Protocol
mod Timers
mod Streams
mod Macros
mod Services
mod Endpoints
mod Graceful
mod Wire
mod Workers
mod Buffers
mod Flows
mod Servers
mod Serving
mod Pipelines
mod Connections
mod Failovers
mod Calls
