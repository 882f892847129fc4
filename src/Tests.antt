-- ===== src/Tests.antt =====
-- Concrete inputs: the theorems of the development at values where their hypotheses hold.
mod Samples
mod Responder
mod Cluster
mod Auth
mod Boards
mod Workers
mod Streams
mod Schedule
mod Relay
mod Startup
mod Launch
mod Running
