-- ===== src/Server.antt =====
-- The gameserver (server/): the game's data, the state that its goroutines share, and the parts that
-- work on it.
pub mod Game
pub mod State
pub mod Crypto
pub mod Codec
pub mod Responder
pub mod Sync
pub mod Ssl
pub mod Stream
pub mod Db
pub mod Conf
pub mod Main
