-- ===== src/Server/Sync/Schedule.antt =====
-- `StartScheduler` of server/gsync/gsync.go: the address of the gameserver, and one round of the
-- loop. The log and the waiting are left out; an error of a step is logged, and the next step runs.
use orbstrike.Common.{
  [], ◌∷◌, ◌++◌, Option, none, some, Text, ℤ, text_eqb, format_int, if◌then◌else◌,
}
use orbstrike.Redis.{Redis, after}
use orbstrike.Keys.{addr_key}
use orbstrike.Server.State.{Server}
use orbstrike.Server.Codec.{Codec}
use orbstrike.Server.Sync.{add_players, remove_players, sync_board_states}

-- Sprintf("%s:%d", host, port)
unfoldable pub host_port : Text → ℤ → Text
host_port host port = host ++ (b':' ∷ format_int port)

-- `hostname` is what the operating system answers, `none` an error. Without an address of its own
-- and a hostname the server has the empty address.
unfoldable pub gserver_addr : (addr hostname_suffix : Text) → ℤ → Option Text → Text
unfolding host_port
gserver_addr addr hostname_suffix port hostname =
    if text_eqb addr []
    then elim hostname [ none ↦ [] | some name ↦ host_port (name ++ hostname_suffix) port ]
    else host_port addr port

module _ (r : Redis) {F : Type 0} (c : Codec F) where
  open r use {Db, set_string}

  -- The address is written, the queues are read through, the boards are synchronised.
  unfoldable pub sync_round : ℤ → Text → ℤ → Server F → Db → Server F × Db
  sync_round gserver_id addr threshold s d =
      let d' = (set_string (addr_key (format_int gserver_id)) addr (after threshold) d).1 in
      let joins = add_players r c s d' in
      let exits = remove_players r c joins.srv joins.db in
      let syncs = sync_board_states r c gserver_id exits.srv exits.db in (syncs.srv, syncs.db)
