-- ===== src/Orchestrator.antt =====
-- The orchestrator (orchestrator/): it creates games, lets players in, places games on gameservers,
-- and moves them away from gameservers that fail.
pub mod Crypto
pub mod Algo
pub mod Auth
pub mod Focontroller
pub mod Proxy
pub mod Ssl
pub mod Db
pub mod Conf
pub mod Main
