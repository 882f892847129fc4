-- ===== src/Server/Db/Trimming.antt =====
-- What TrimSplit keeps of a list of addresses.
use orbstrike.Common.{
  ℕ, Bool, true, false, not, ◌&&◌, List, [], ◌∷◌, ◌++◌, ◌≡◌, ◌≢◌, refl, sym, ap, ◌∙◌, ◌⊎◌, inl, inr,
  Text, text_eqb, text_eqb_iff, split, cut_at, is_blank, trim_left, cons_right, trim_right,
  trim_space, ◌==◌, All, arith, ◌||◌, if◌then◌else◌, Bool-cases,
}
use orbstrike.Server.Db.{trim_parts, trim_split}

-- A text that has a first byte and a last byte, and neither is a space.
abbrev pub starts_bare : Text → Bool
starts_bare [] = false
starts_bare (c ∷ s) = not (is_blank c)

abbrev pub ends_bare : Text → Bool
ends_bare [] = false
ends_bare (c ∷ []) = not (is_blank c)
ends_bare (c ∷ d ∷ s) = ends_bare (d ∷ s)

-- The bytes that are no spaces and not the separator `sep`.
abbrev pub visible : ℕ → Text → Text
visible sep [] = []
visible sep (c ∷ s) = let rest = visible sep s in if is_blank c || c == sep then rest else c ∷ rest

abbrev pub lacks : ℕ → Text → Bool
lacks sep [] = true
lacks sep (c ∷ s) = not (c == sep) && lacks sep s

abbrev pub joined : List Text → Text
joined [] = []
joined (p ∷ ps) = p ++ joined ps

-- An entry of the result: not empty, with no space at either end and no separator in it.
abbrev pub IsEntry : ℕ → Text → Type 0
IsEntry sep p = (starts_bare p ≡ true) × (ends_bare p ≡ true) × (lacks sep p ≡ true)

module _ (sep : ℕ) where
  visible-append : (s t : Text) → visible sep (s ++ t) ≡ visible sep s ++ visible sep t
  visible-append [] t = refl
  visible-append (c ∷ s) t = ground (arith, visible-append s t)

  visible-trim_left : (s : Text) → visible sep (trim_left s) ≡ visible sep s
  unfolding trim_left
  visible-trim_left [] = refl
  visible-trim_left (c ∷ s) = ground (arith, visible-trim_left s)

  visible-cons_right :
      (c : ℕ) (s : Text) → visible sep (trim_right (c ∷ s)) ≡ visible sep (c ∷ trim_right s)
  unfolding trim_right
  visible-cons_right c s =
      elim (trim_right s) as (λ r. visible sep (cons_right c r) ≡ visible sep (c ∷ r)) [
        | [] ↦ ground arith
        | d ∷ r ↦ refl
      ]

  visible-trim_right : (s : Text) → visible sep (trim_right s) ≡ visible sep s
  unfolding trim_right
  visible-trim_right [] = refl
  visible-trim_right (c ∷ s) = visible-cons_right c s ∙ ground (arith, visible-trim_right s)

  visible-trim_space : (s : Text) → visible sep (trim_space s) ≡ visible sep s
  unfolding trim_space
  visible-trim_space s = visible-trim_right (trim_left s) ∙ visible-trim_left s

  visible-trim_parts :
      (ps : List Text) → visible sep (joined (trim_parts ps)) ≡ visible sep (joined ps)
  unfolding trim_parts
  visible-trim_parts [] = refl
  visible-trim_parts (p ∷ ps) = elim (Bool-cases (text_eqb (trim_space p) [])) [
    | inl none_left ↦ rw none_left (
        visible-trim_parts ps
        ∙ sym (
            visible-append p (joined ps)
            ∙ ap (λ x. x ++ visible sep (joined ps))
                (sym (visible-trim_space p)
                  ∙ ap (visible sep) ((text_eqb_iff (trim_space p) []).0 none_left))))
    | inr some_left ↦ rw some_left (
        visible-append (trim_space p) (joined (trim_parts ps))
        ∙ ap (λ x. x ++ visible sep (joined (trim_parts ps))) (visible-trim_space p)
        ∙ ap (λ x. visible sep p ++ x) (visible-trim_parts ps)
        ∙ sym (visible-append p (joined ps)))
  ]

  visible-split : (s : Text) → visible sep (joined (split s sep)) ≡ visible sep s
  unfolding split cut_at
  visible-split [] = refl
  visible-split (c ∷ s) = ground (arith, visible-split s)

  trim_left_cases : (s : Text) → (trim_left s ≡ []) ⊎ (starts_bare (trim_left s) ≡ true)
  unfolding trim_left
  trim_left_cases [] = inl refl
  trim_left_cases (c ∷ s) = ground (arith, trim_left_cases s)

  starts-cons_right :
      (c : ℕ) (r : Text) → not (is_blank c) ≡ true → starts_bare (cons_right c r) ≡ true
  starts-cons_right c [] h = ground arith
  starts-cons_right c (d ∷ r) h = h

  ends-cons_right :
      (c : ℕ) (r : Text)
      → (r ≡ []) ⊎ (ends_bare r ≡ true)
      → (cons_right c r ≡ []) ⊎ (ends_bare (cons_right c r) ≡ true)
  ends-cons_right c [] h = ground arith
  ends-cons_right c (d ∷ r) (inl h) = cc
  ends-cons_right c (d ∷ r) (inr h) = inr h

  trim_right_cases : (s : Text) → (trim_right s ≡ []) ⊎ (ends_bare (trim_right s) ≡ true)
  unfolding trim_right
  trim_right_cases [] = inl refl
  trim_right_cases (c ∷ s) = ends-cons_right c (trim_right s) (trim_right_cases s)

  starts-trim_right : (s : Text) → starts_bare s ≡ true → starts_bare (trim_right s) ≡ true
  unfolding trim_right
  starts-trim_right [] h = cc
  starts-trim_right (c ∷ s) h = starts-cons_right c (trim_right s) h

  lacks-trim_left : (s : Text) → lacks sep s ≡ true → lacks sep (trim_left s) ≡ true
  unfolding trim_left
  lacks-trim_left [] h = h
  lacks-trim_left (c ∷ s) h = ground (arith, lacks-trim_left s)

  lacks-cons_right :
      (c : ℕ) (r : Text)
      → not (c == sep) ≡ true
      → lacks sep r ≡ true
      → lacks sep (cons_right c r) ≡ true
  lacks-cons_right c [] h k = ground arith
  lacks-cons_right c (d ∷ r) h k = ground arith

  lacks-trim_right : (s : Text) → lacks sep s ≡ true → lacks sep (trim_right s) ≡ true
  unfolding trim_right
  lacks-trim_right [] h = h
  lacks-trim_right (c ∷ s) h =
      lacks-cons_right c (trim_right s) (ground arith) (lacks-trim_right s (ground arith))

  lacks-cut_at :
      (s : Text)
      → (lacks sep (cut_at sep s).0 ≡ true) × All (λ p. lacks sep p ≡ true) (cut_at sep s).1
  unfolding cut_at
  lacks-cut_at [] = (refl, tt)
  lacks-cut_at (c ∷ s) = ground (arith, lacks-cut_at s)

  trim_space-IsEntry :
      (s : Text) → lacks sep s ≡ true → trim_space s ≢ [] → IsEntry sep (trim_space s)
  unfolding trim_space trim_right
  trim_space-IsEntry s l ne = elim (trim_left_cases s) [
    | inl e ↦ absurd (ne (ap trim_right e))
    | inr b ↦ elim (trim_right_cases (trim_left s)) [
      | inl e ↦ absurd (ne e)
      | inr t ↦ (
        starts-trim_right (trim_left s) b,
        t,
        lacks-trim_right (trim_left s) (lacks-trim_left s l),
      )
    ]
  ]

  trim_parts-IsEntry :
      (ps : List Text) → All (λ p. lacks sep p ≡ true) ps → All (IsEntry sep) (trim_parts ps)
  unfolding trim_parts
  trim_parts-IsEntry [] h = tt
  trim_parts-IsEntry (p ∷ ps) h = elim (Bool-cases (text_eqb (trim_space p) [])) [
    | inl none_left ↦ rw none_left (trim_parts-IsEntry ps h.1)
    | inr some_left ↦ rw some_left (
      trim_space-IsEntry p h.0 (λ e. cc (some_left, (text_eqb_iff (trim_space p) []).1 e)),
      trim_parts-IsEntry ps h.1,
    )
  ]

  -- Every entry that TrimSplit returns is not empty, has no space at either end and no separator in
  -- it; and but for spaces and separators the entries spell the whole input, in order.
  pub trim_split-IsEntry :
      (input : Text)
      → All (IsEntry sep) (trim_split input sep)
        × (visible sep (joined (trim_split input sep)) ≡ visible sep input)
  unfolding trim_split split
  trim_split-IsEntry input = (
    trim_parts-IsEntry (split input sep) (lacks-cut_at input),
    visible-trim_parts (split input sep) ∙ visible-split input,
  )
