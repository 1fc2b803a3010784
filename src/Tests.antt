-- ===== src/Tests.antt =====
-- Runs of the definitions on inputs of the sources' comments and unit tests, and the theorems at
-- concrete inputs.
mod Sample
mod Probes
mod Readings
mod Search
mod Exchanges
mod Serving
mod Requests
mod Configuration
mod Startup
mod Traces
