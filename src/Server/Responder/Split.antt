-- ===== src/Server/Responder/Split.antt =====
-- `splitRequestMap` of server/responder/scheduler.go. An index out of range is a panic, `none`.
pub mod Dealing
pub mod Shares
use orbstrike.Common.{
  ℕ, zero, suc, ◌+◌, ◌-◌, ◌*◌, ◌/◌, ◌≤◌, ◌<◌, ◌≡◌, refl, sym, ap, ◌∙◌, ◌⊎◌, inl, inr, ◌≢◌, Bool,
  true, false, List, [], ◌∷◌, ◌++◌, Option, none, some, ℤ, pos, negsuc, eqb_ℤ, eqb_ℤ_iff, Map,
  lookup, insert, Unique, int_eq, arith, length, get_elem?, set, replicate, All, leb, if◌then◌else◌,
  lookup-insert, delete_absent, length-append, length-replicate, All-append, Bool-cases,
  get_elem?-middle, set-middle,
}
use mathlib.Core.List.{append_assoc}
use orbstrike.Server.Game.{Move}

abbrev pub Requests : Type 0
Requests = Map ℤ Move

-- The loop: slices[slicesIdx][k] = v, and the next slice once this one has `size` entries.
unfoldable pub place :
    Requests → ℕ → List Requests → (map_slice_idx slices_idx : ℕ) → Option (List Requests)
place [] size slices m i = some slices
place ((k, v) ∷ rest) size slices m i = elim (get_elem? slices i) [
  | none ↦ none
  | some slice ↦
      let full = leb size (m + 1) in
      place rest size (set slices i (insert k v slice)) (if full then 0 else m + 1)
        (if full then i + 1 else i)
]

unfoldable pub split_request_map : Requests → ℤ → Option (List Requests)
unfolding place
split_request_map requests (negsuc n) = some []
split_request_map requests (pos zero) = some []
split_request_map requests (pos (suc n)) =
    place requests ((length requests + suc n - 1) / suc n) (replicate (suc n) []) 0 0

-- The moves that the slices hold for one session.
abbrev pub held {ℓ} : {V : Type ℓ} → Option V → List V
held none = []
held (some v) = v ∷ []

abbrev pub moves_of : ℤ → List Requests → List Move
moves_of j [] = []
moves_of j (s ∷ ss) = held (lookup j s) ++ moves_of j ss

moves_of-append :
    (j : ℤ) (xs ys : List Requests) → moves_of j (xs ++ ys) ≡ moves_of j xs ++ moves_of j ys
moves_of-append j [] ys = refl
moves_of-append j (x ∷ xs) ys = simp (moves_of-append j xs ys, append_assoc)

moves_of-blank : (j : ℤ) (n : ℕ) → moves_of j (replicate n []) ≡ []
unfolding lookup
moves_of-blank j zero = refl
moves_of-blank j (suc n) = moves_of-blank j n

place_step :
    (k : ℤ) (v : Move) (rest : Requests) (size : ℕ) (done : List Requests) (cur : Requests)
    (blank : List Requests) (m : ℕ)
    → place ((k, v) ∷ rest) size (done ++ cur ∷ blank) m (length done)
      ≡ place rest size
          (done ++ insert k v cur ∷ blank)
          (if leb size (m + 1) then 0 else m + 1)
          (if leb size (m + 1) then length done + 1 else length done)
unfolding place
place_step k v rest size done cur blank m =
    rw (get_elem?-middle done cur blank, place) (rw (set-middle done cur (insert k v cur) blank))
