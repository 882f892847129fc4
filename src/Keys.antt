-- ===== src/Keys.antt =====
-- The keys of the shared database, which the orchestrator and the gameservers write alike.
use orbstrike.Common.{
  Text, codes, ◌++◌, ◌∷◌, [], ℤ, format_int, sscanf, sscanf-format_int, IsInt64, ◌≡◌, ◌≢◌, refl,
  some, none,
}

-- "gserver:index:games": the set of the keys of the servers' game maps
unfoldable pub index_key : Text
index_key = codes "gserver:index:games"

unfoldable pub gserver : Text
gserver = codes "gserver:"

unfoldable pub games_suffix : Text
games_suffix = codes ":games"

unfoldable pub addr_suffix : Text
addr_suffix = codes ":addr"

-- Sprintf("gserver:%d:games", id)
unfoldable pub games_key : ℤ → Text
games_key id = gserver ++ (format_int id ++ games_suffix)

-- Sprintf("gserver:%s:addr", instanceid), and with %d for a number that is written first
unfoldable pub addr_key : Text → Text
addr_key instance_id = gserver ++ (instance_id ++ addr_suffix)

-- ":game", the literal behind %d in FindUnhandledGameMaps
unfoldable pub game_suffix : Text
game_suffix = codes ":game"

-- Under the format of AllocateGame the key of a server's game map reads as the server's number.
pub sscanf-games_key : (id : ℤ) → IsInt64 id → sscanf gserver games_suffix (games_key id) ≡ some id
unfolding games_key games_suffix codes
sscanf-games_key id h = sscanf-format_int gserver games_suffix [] id h refl

-- The key of a server's game map reads as the server's number under the format of
-- FindUnhandledGameMaps too, which stops before the key's last letter.
pub sscanf_part-games_key :
    (id : ℤ) → IsInt64 id → sscanf gserver game_suffix (games_key id) ≡ some id
unfolding games_key games_suffix game_suffix codes
sscanf_part-games_key id h = sscanf-format_int gserver game_suffix (b's' ∷ []) id h refl

scan-index_key : sscanf gserver games_suffix index_key ≡ none
unfolding sscanf gserver games_suffix index_key codes
scan-index_key = refl

-- The index of the servers is no server's game map.
pub index_key-ne : (id : ℤ) → IsInt64 id → index_key ≢ games_key id
index_key-ne id h e = cc (sscanf-games_key id h, scan-index_key, e)
