-- ===== src/Logger/Sizes.antt =====
-- How large the log is when a program starts, and which entries it gets.
use orbstrike.Common.{
  ℕ, ◌*◌, ◌^◌, ◌≤◌, ◌<◌, ◌≡◌, refl, inl, inr, Bool, true, [], ◌∷◌, ◌++◌, none, some, Text, ℤ, pos,
  int64_id, length, arith, Option-cases, Bool-cases, ◌↔◌, ◌⊎◌, ap, some_inj, codes, strip_prefix,
  ◌==◌, ==_iff,
}
use orbstrike.Logger.{
  FileAnswers, LogFile, limit, clear_log, Logger, upper, contains_text, init_logger,
}

limit_pos : (n : ℕ) → n * 1024 < 2 ^ 63 → limit (pos n) ≡ pos (n * 1024)
unfolding limit
limit_pos n h = int64_id (pos (n * 1024)) (h, omega arith)

clear_log-bounds :
    (a : FileAnswers) (n : ℕ) (f : LogFile)
    → n * 1024 < 2 ^ 63
    → (clear_log a (pos n) f).0 ≡ none
    → (length (clear_log a (pos n) f).1.content ≤ n * 1024)
      × ((clear_log a (pos n) f).1.closed ≡ f.closed)
unfolding clear_log
clear_log-bounds a n f small h = ground (arith, limit_pos n small)

-- The texts before and after an occurrence of `sub` in `s`.
pub record Occurs (sub s : Text) : Type 0 where
  pub before : Text
  pub after : Text
  pub spells : s ≡ before ++ (sub ++ after)

strip_prefix_lem : (p s rest : Text) → strip_prefix p s ≡ some rest → s ≡ p ++ rest
unfolding strip_prefix
strip_prefix_lem [] s rest h = some_inj h
strip_prefix_lem (c ∷ p) [] rest h = cc
strip_prefix_lem (c ∷ p) (d ∷ s) rest h = elim (Bool-cases (c == d)) [
  | inl e ↦
      let q : c ≡ d = (==_iff c d).0 e in
      rw (← q) (ap (◌∷◌ c) (strip_prefix_lem p s rest (rw e at h)))
  | inr ne ↦ ground arith
]

strip_prefix-append : (p rest : Text) → strip_prefix p (p ++ rest) ≡ some rest
unfolding strip_prefix
strip_prefix-append [] rest = refl
strip_prefix-append (c ∷ p) rest = ground (arith, strip_prefix-append p rest)

contains_text-Occurs : (s sub : Text) → contains_text s sub ≡ true → Occurs sub s
unfolding contains_text
contains_text-Occurs [] sub h = elim (Option-cases (strip_prefix sub [])) [
  | inl e ↦ ground arith
  | inr (rest, e) ↦ record { before = []; after = rest; spells = strip_prefix_lem sub [] rest e }
]
contains_text-Occurs (c ∷ s) sub h = elim (Option-cases (strip_prefix sub (c ∷ s))) [
  | inr (rest, e) ↦ record {
    before = [];
    after = rest;
    spells = strip_prefix_lem sub (c ∷ s) rest e;
  }
  | inl e ↦
      let o = contains_text-Occurs s sub (rw (e, contains_text) at h) in
      record { before = c ∷ o.before; after = o.after; spells = ap (◌∷◌ c) o.spells }
]

contains_text_found :
    (before sub after : Text) → contains_text (before ++ (sub ++ after)) sub ≡ true
unfolding contains_text
contains_text_found (c ∷ before) sub after =
    elim (Option-cases (strip_prefix sub (c ∷ (before ++ (sub ++ after))))) [
      | inl e ↦ rw (e, contains_text) (contains_text_found before sub after)
      | inr (rest, e) ↦ rw (e, contains_text)
    ]
contains_text_found [] sub after = starts (sub ++ after) (strip_prefix-append sub after)
  where
    starts : (s : Text) → strip_prefix sub s ≡ some after → contains_text s sub ≡ true
    starts [] e = rw (e, contains_text)
    starts (c ∷ s) e = rw (e, contains_text)

contains_text_iff : (s sub : Text) → (contains_text s sub ≡ true) ↔ Occurs sub s
contains_text_iff s sub =
    (contains_text-Occurs s sub, λ o. rw o.spells (contains_text_found o.before sub o.after))

-- A logger that has started with the limit `n` and the levels `loglevel`.
pub record Started (n : ℕ) (found : LogFile) (loglevel : Text) (l : Logger) : Type 0 where
  pub bounded : length l.file.content ≤ n * 1024
  pub kept : (l.file.content ≡ found.content) ⊎ (l.file.content ≡ [])
  pub still_open : l.file.closed ≡ found.closed
  pub error : (l.error ≡ true) ↔ Occurs (codes "ERROR") (upper loglevel)
  pub warning : (l.warning ≡ true) ↔ Occurs (codes "WARNING") (upper loglevel)
  pub information : (l.information ≡ true) ↔ Occurs (codes "INFORMATION") (upper loglevel)

clear_log-kept :
    (a : FileAnswers) (m : ℤ) (f : LogFile)
    → ((clear_log a m f).1.content ≡ f.content) ⊎ ((clear_log a m f).1.content ≡ [])
unfolding clear_log
clear_log-kept a m f = ground arith

-- A logger that starts without an error has a file of `n` kilobytes at most, which is the one found
-- or empty, and a level is on exactly if its name stands in the option, in any case.
pub init_logger-Started :
    (a : FileAnswers) (found : LogFile) (loglevel : Text) (n : ℕ) (console : Bool) (l : Logger)
    → n * 1024 < 2 ^ 63
    → (init_logger a found loglevel (pos n) console l).0 ≡ none
    → Started n found loglevel (init_logger a found loglevel (pos n) console l).1
unfolding init_logger
init_logger-Started a found loglevel n console l small = elim (Option-cases a.open_file) [
  | inr (e, q) ↦ rw (q, init_logger) (λ h. cc)
  | inl q ↦
      rw (q, init_logger)
        (elim (Option-cases (clear_log a (pos n) found).0) [
          | inr (e, q') ↦ rw (q', init_logger) (λ h. cc)
          | inl q' ↦
              rw (q', init_logger)
                (λ h.
                  let b = clear_log-bounds a n found small q' in
                  record {
                    bounded = b.0;
                    kept = clear_log-kept a (pos n) found;
                    still_open = b.1;
                    error = contains_text_iff (upper loglevel) (codes "ERROR");
                    warning = contains_text_iff (upper loglevel) (codes "WARNING");
                    information = contains_text_iff (upper loglevel) (codes "INFORMATION");
                  })
        ])
]
