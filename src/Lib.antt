-- ===== src/Lib.antt =====
-- Orbstrike: a multiplayer game whose players drive orbs over shared boards. Two programs run it.
-- A gameserver (server/) holds boards in memory and answers the moves that players stream to it.
-- The orchestrator (orchestrator/) creates games, hands out sealed player keys, forwards streams to
-- gameservers, and moves the games of a gameserver that fails. The programs share a Redis database:
--   gserver:index:games   the set of the keys of all game maps
--   gserver:<id>:games    a hash, game id to instance, of the games of gameserver <id>
--   gserver:<id>:addr     the address of gameserver <id>, which expires unless it is renewed
--   game:queue            a hash, encoded player to board id, of players that want to join
--   game:exitqueue        a hash, player id to board id, of players that want to leave
--   game:<id>             the encoded board <id>
--
-- Files, with the code that each is about:
--   Common               lists, maps, Go's int32 and int64, decimal text, bytes, Sscanf on a key,
--                        strings.Split and strings.TrimSpace
--   Cipher               AES-GCM as crypto/aes and crypto/cipher document it, and its laws
--   Redis                the commands that the programs use, and their laws; Redis/Memory runs them
--   Keys                 the database keys, from server/gsync and orchestrator/algo
--   Tls                  crypto/tls, crypto/x509 and base64, a parameter, and a TLS configuration
--   Viper                the configuration library viper, a parameter; Precedence has its lemmas
--   Logger               server/logger/logger.go and orchestrator/logger/logger.go, the same text
--   Server/Game          the messages of api/game/game.proto
--   Server/State         server/socket/sgame/sgame.go: the struct `Server` and gRPC's status values
--   Server/Crypto        server/crypto/crypto.go
--   Server/Codec         the encoding of boards and players, a parameter
--   Server/Responder     server/responder: Respond for `Respond`, Position for `PlayerPosition`,
--                        Pool for `AdjustWorkers` and the workers of its pool, Split for
--                        `splitRequestMap`, Schedule for a round of `StartScheduler`, `AddResponse`
--                        and `StartPoolWorker`; the other files are proofs about them
--   Server/Stream        server/socket/sgame/sgame.go: `StreamGameboard` from one access of the
--                        shared maps to the next; System has the goroutines side by side
--   Server/Sync          server/gsync/gsync.go: addPlayers, removePlayers and syncBoardStates, and
--                        in Schedule a round of `StartScheduler`; Steps has what is done under one
--                        hold of the lock
--   Server/Ssl, Db, Conf, Main
--                        server/ssl/ssl.go, server/db/dbloader.go, server/conf/confloader.go and
--                        server/main.go; Main/Running joins the start with the goroutines
--   Orchestrator/Crypto  orchestrator/crypto/crypto.go
--   Orchestrator/Algo    orchestrator/algo: Allocators for `AllocateGame` and `ReallocateGames`,
--                        Searchers for `FindGServer` and `FindUnhandledGameMaps`
--   Orchestrator/Auth    orchestrator/socket/sauth/sauth.go: Create, Join and Exit for its requests;
--                        Limits, Tickets and Leaves are proofs about them
--   Orchestrator/Focontroller
--                        orchestrator/focontroller/focontroller.go: one round of `StartScheduler`
--   Orchestrator/Proxy   orchestrator/socket/proxy/proxy.go: `ProxyGameboard`, and in Loops the two
--                        loops that carry messages
--   Orchestrator/Ssl, Db, Conf, Main
--                        orchestrator/ssl/ssl.go, orchestrator/db/dbloader.go,
--                        orchestrator/conf/confloader.go and orchestrator/main.go
--   Tests                samples, and the theorems applied to them
-- A function of the source keeps its name in snake case: `Respond` is `respond`. What its body does
-- between two returns, or one round of its loop, is a helper of its own.
--
-- State is passed explicitly. A Go map is an association list that `insert` and `delete` keep free
-- of double keys; the order in which Go ranges over a map is the order of the list, and the theorems
-- hold for every order. An int32, an int64 and a word keep their wrap-around. A panic is `none` where
-- the code can panic. Every loop is over a list or over a count that the
-- code has (the seconds of a poll, the workers to start or stop), so it is structural recursion and
-- none has fuel.
--
-- What is not under this repository is a parameter: float64 arithmetic (`Float`), AES-GCM
-- (`Cipher`, laws `IsAead`), the Redis server and its client (`Redis`, laws `IsRedis`), the
-- protobuf encoding (`Codec`), certificates (`X509`), viper (`Viper`, laws `IsViper`), gRPC
-- (`Grpc`), and the answers of the operating system and the random numbers, which are arguments. A
-- command of Redis may fail at any time.
-- `Redis.Memory.memory` is a database that satisfies `IsRedis`.
--
-- The lock of the gameserver is held for one round of `Respond` and for the body of addPlayers'
-- loop, which are atomic here. removePlayers and syncBoardStates change from the read lock to the
-- write lock in between; since boards are reached by pointer, what they do is atomic here too. The
-- goroutines are interleaved by the step relations `Step` (streams, scheduler, workers and
-- synchronisation of a gameserver) and `RelayStep` (the two loops of a proxied stream and the
-- handler that waits for them); a stream or a loop runs from one access of what it shares to the
-- next. A function of gsync or algo runs with no other client's command between its own; only in
-- the poll of `JoinGame` is what the others do in a second an argument. A scheduler and a worker
-- repeat their round, so that one round is modelled. Separators and spaces of strings.Split,
-- TrimSpace and ToUpper are those of ASCII.
--
-- Not modelled: what the programs log while they run (the logger itself is), what a stream sends,
-- which is the board that its pointer reaches at that time, what the code does with a board that is
-- a nil pointer, how long anything takes, and how goroutines contend for locks, apart from a
-- scheduler that waits for a full channel. The generated protobuf code and the Unity client are
-- outside the development; server/mutex only renames types of other packages.
pub mod Common
pub mod Cipher
pub mod Tls
pub mod Logger
pub mod Viper
pub mod Server
pub mod Redis
pub mod Keys
pub mod Orchestrator
mod Tests
