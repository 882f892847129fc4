-- ===== src/Server/Sync/Boards.antt =====
-- Which boards a gameserver has loaded after `syncBoardStates`.
use orbstrike.Common.{◌≡◌, ◌≢◌, refl, inl, inr, [], none, some, Text, ℤ, Map, lookup, int_eq, arith}
use orbstrike.Redis.{Redis, is_ok, is_nil, is_failed, Reply-cases, Reply, ok}
use orbstrike.Keys.{games_key, index_key}
use orbstrike.Server.Game.{GameBoard}
use orbstrike.Server.State.{Server}
use orbstrike.Server.Codec.{Codec}
use orbstrike.Server.Sync.{swap_boards, enlist, save_boards, sync_board_states, Outcome}
use orbstrike.Server.Sync.Collecting.{Assigned, collect-assigned, collect-source}

none≢some {ℓ} : {A : Type ℓ} {a : A} → none ≡ some a → ⊥
none≢some h = cc

-- The boards after a synchronisation with the map `games`.
pub record Synced {F : Type 0} (games : Map Text Text) (s s' : Server F) : Type 0 where
  -- only boards of the map are loaded
  pub assigned : (g : ℤ) (b : GameBoard F) → lookup g s'.boards ≡ some b → Assigned g games
  -- a board of the map that was loaded stays loaded as it is
  pub kept :
      (g : ℤ) (b : GameBoard F)
      → Assigned g games
      → lookup g s.boards ≡ some b
      → lookup g s'.boards ≡ some b

-- Of a call for which the database answers `reply` when asked for the server's map: it fails and
-- leaves the boards alone, or it goes by the map that was read.
pub data SyncResult {F : Type 0} {Db : Type 0} (reply : Reply (Map Text Text)) (s : Server F)
    (o : Outcome F Db) : Type 0 where
  refused : (o.err ≢ none) → o.srv ≡ s → SyncResult reply s o
  synced :
      (games : Map Text Text)
      → reply ≡ ok games
      → o.err ≡ none
      → Synced games s o.srv
      → SyncResult reply s o

module _ (r : Redis) {F : Type 0} (c : Codec F) where
  swap_boards-Synced :
      (key : Text) (games : Map Text Text) (s : Server F) (d : r.Db)
      → Synced games s (swap_boards r c key games s d).srv
  unfolding swap_boards lookup
  swap_boards-Synced key games s d = record {
    assigned = λ g b h. elim (collect-source r c key s.boards games [] d g b h) [
      | inl (y, k) ↦ absurd (none≢some k)
      | inr a ↦ a
    ];
    kept = λ g b a l.
        collect-assigned r c key s.boards games [] d g b a.strkey a.value
          (λ g b b' h k. absurd (none≢some h)) a.listed a.names l;
  }

  enlist-SyncResult :
      (key : Text) (games : Map Text Text) (s : Server F) (d : r.Db)
      → SyncResult (ok games) s (enlist r c key games s d)
  unfolding enlist
  enlist-SyncResult key games s d = elim (Reply-cases (r.sadd index_key key d).0) [
    | is_ok u e ↦
        rw (e, enlist)
          (synced games refl (ground arith)
            (swap_boards-Synced key games s (r.sadd index_key key d).1))
    | is_nil e ↦ rw (e, enlist) (refused (λ h. cc) refl)
    | is_failed t e ↦ rw (e, enlist) (refused (λ h. cc) refl)
  ]

  -- A synchronisation that returns an error leaves the boards alone. One that returns none loads
  -- only boards that the server's map names, and keeps each loaded board that it names as it is.
  pub sync_board_states-SyncResult :
      (gserver_id : ℤ) (s : Server F) (d : r.Db)
      → SyncResult
          (r.hgetall (games_key gserver_id) (save_boards r c s.boards d)).0
          s
          (sync_board_states r c gserver_id s d)
  unfolding sync_board_states
  sync_board_states-SyncResult gserver_id s d =
      let d' = save_boards r c s.boards d in
      elim (Reply-cases (r.hgetall (games_key gserver_id) d').0) [
        | is_ok games e ↦
            rw (e, sync_board_states)
              (enlist-SyncResult (games_key gserver_id) games s
                (r.hgetall (games_key gserver_id) d').1)
        | is_nil e ↦ rw (e, sync_board_states) (refused (λ h. cc) refl)
        | is_failed t e ↦ rw (e, sync_board_states) (refused (λ h. cc) refl)
      ]
