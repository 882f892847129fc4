-- ===== src/Server/Responder.antt =====
-- server/responder: the workers that answer the sessions.
pub mod Position
pub mod Respond
pub mod Combat
pub mod Round
pub mod Action
pub mod Invariant
pub mod Frame
pub mod Progress
pub mod Split
pub mod Pool
pub mod Schedule
