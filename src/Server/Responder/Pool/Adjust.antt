-- ===== src/Server/Responder/Pool/Adjust.antt =====
-- `AdjustWorkers` reaches the size that is asked for, and closes no channel twice.
use orbstrike.Common.{
  ℕ, zero, suc, ◌+◌, ◌-◌, ◌≡◌, refl, sym, ap, subst, ◌∙◌, inl, inr, true, false, List, [], ◌∷◌,
  ◌++◌, some, pos, ltb, length, take, drop, replicate, All, All-append, length-append,
  length-replicate, take-append, drop-append, take-append-drop, length-take, length-drop,
  get_elem?-middle, set-middle, map, arith, Bool-cases,
}
use mathlib.Core.List.{append_assoc, append-nil}
use orbstrike.Server.Responder.Pool.{
  PoolWorker, Pool, init_pool_worker, stop_pool_worker, start_workers, stop_workers, grow, shrink,
  adjust_workers,
}

abbrev pub Open : PoolWorker → Type 0
Open w = w.closed ≡ false

-- A worker as InitPoolWorker makes it.
abbrev pub idle : ℕ → PoolWorker
idle size = record { queue = []; capacity = size; closed = false }

abbrev pub stopped : PoolWorker → PoolWorker
stopped w = record w { closed = true }

-- The first workers stay; workers are added behind them, or the last ones are stopped and leave.
pub data Adjusted (p p' : Pool) : Type 0 where
  same : p' ≡ p → Adjusted p p'
  grown :
      (count size : ℕ)
      → p' ≡ record p { workers = p.workers ++ replicate count (idle size) }
      → Adjusted p p'
  shrunk :
      (out : List PoolWorker)
      → p.workers ≡ p'.workers ++ out
      → p'.retired ≡ p.retired ++ map stopped out
      → Adjusted p p'

start_workers_lem :
    (n size : ℕ) (ws : List PoolWorker)
    → start_workers n (pos size) ws ≡ some (ws ++ replicate n (idle size))
unfolding start_workers init_pool_worker
start_workers_lem zero size ws = ap some (sym (append-nil ws))
start_workers_lem (suc n) size ws =
    start_workers_lem n size (ws ++ idle size ∷ []) ∙ ap some (append_assoc ws (idle size ∷ []) _)

length-map-stopped : (ws : List PoolWorker) → length (map stopped ws) ≡ length ws
length-map-stopped [] = refl
length-map-stopped (w ∷ ws) = ap suc (length-map-stopped ws)

-- A list with a last element.
record Ended {A : Type 0} (xs : List A) : Type 0 where
  first : List A
  last : A
  ends : xs ≡ first ++ last ∷ []

ended : {A : Type 0} (x : A) (xs : List A) → Ended (x ∷ xs)
ended x [] = record { first = []; last = x; ends = refl }
ended x (y ∷ xs) =
    let e = ended y xs in record { first = x ∷ e.first; last = e.last; ends = ap (◌∷◌ x) e.ends }

map-append : {A B : Type 0} (f : A → B) (xs ys : List A) → map f (xs ++ ys) ≡ map f xs ++ map f ys
map-append f [] ys = refl
map-append f (x ∷ xs) ys = ap (◌∷◌ (f x)) (map-append f xs ys)

All-first : {A : Type 0} (P : A → Type 0) (xs ys : List A) → All P (xs ++ ys) → All P xs × All P ys
All-first P [] ys h = (tt, h)
All-first P (x ∷ xs) ys h = let (a, b) = All-first P xs ys h.1 in ((h.0, a), b)

All-replicate : {A : Type 0} (P : A → Type 0) (n : ℕ) (a : A) → P a → All P (replicate n a)
All-replicate P zero a h = tt
All-replicate P (suc n) a h = (h, All-replicate P n a h)

-- One round of the loop that stops workers.
stop_step :
    (n : ℕ) (xs : List PoolWorker) (x : PoolWorker) (ys : List PoolWorker)
    → Open x
    → stop_workers (suc n) (length ys) (xs ++ x ∷ ys)
      ≡ stop_workers n (length ys + 1) (xs ++ stopped x ∷ ys)
unfolding stop_workers stop_pool_worker
stop_step n xs x ys o =
    let e : length (xs ++ x ∷ ys) - length ys - 1 ≡ length xs =
      ground (arith, length-append xs (x ∷ ys)) in
    let l : ltb (length ys) (length (xs ++ x ∷ ys)) ≡ true =
      ground (arith, length-append xs (x ∷ ys)) in
    rw (l, e, get_elem?-middle xs x ys, o)
      (ap (stop_workers n (length ys + 1)) (rw e (set-middle xs x (stopped x) ys)))

stop_workers_lem :
    (n : ℕ) (keep out ys : List PoolWorker)
    → length out ≡ n
    → All Open out
    → stop_workers n (length ys) (keep ++ out ++ ys) ≡ some (keep ++ map stopped out ++ ys)
unfolding stop_workers
stop_workers_lem zero keep [] ys h o = refl
stop_workers_lem zero keep (x ∷ out) ys h o = absurd (omega arith)
stop_workers_lem (suc n) keep [] ys h o = absurd (omega arith)
stop_workers_lem (suc n) keep (w ∷ out) ys h o =
    let e = ended w out in
    let (op, last_open) = All-first Open e.first (e.last ∷ []) (subst (All Open) e.ends o) in
    let count : length e.first ≡ n =
      omega (arith, ap length e.ends, length-append e.first (e.last ∷ [])) in
    let shape : keep ++ (w ∷ out) ++ ys ≡ (keep ++ e.first) ++ e.last ∷ ys =
      ap (λ l. keep ++ l ++ ys) e.ends
      ∙ ap (λ l. l ++ ys) (sym (append_assoc keep e.first (e.last ∷ [])))
      ∙ append_assoc (keep ++ e.first) (e.last ∷ []) ys in
    let result : keep ++ map stopped e.first ++ stopped e.last ∷ ys
        ≡ keep ++ map stopped (w ∷ out) ++ ys =
      sym (append_assoc (keep ++ map stopped e.first) (stopped e.last ∷ []) ys)
      ∙ ap (λ l. l ++ ys)
          (append_assoc keep (map stopped e.first) (stopped e.last ∷ [])
            ∙ ap (λ l. keep ++ l)
                (sym (map-append stopped e.first (e.last ∷ [])) ∙ ap (map stopped) (sym e.ends))) in
    ap (stop_workers (suc n) (length ys)) shape
    ∙ stop_step n (keep ++ e.first) e.last ys last_open.0
    ∙ ap (λ m. stop_workers n m (keep ++ e.first ++ stopped e.last ∷ ys)) (omega arith)
    ∙ stop_workers_lem n keep e.first (stopped e.last ∷ ys) count op
    ∙ ap some result

-- What AdjustWorkers makes of a pool.
pub record Sized (desired : ℕ) (p : Pool) : Type 0 where
  pub pool : Pool
  pub returned : adjust_workers desired p ≡ some pool
  pub count : length pool.workers ≡ desired
  pub open_workers : All Open pool.workers
  pub adjusted : Adjusted p pool

same_size :
    (desired : ℕ) (p : Pool) → All Open p.workers → length p.workers ≡ desired → Sized desired p
unfolding adjust_workers
same_size desired p o e = record {
  pool = p;
  returned = ground arith;
  count = e;
  open_workers = o;
  adjusted = same refl;
}

module _ (desired : ℕ) (p : Pool) (o : All Open p.workers) where
  larger :
      (size : ℕ)
      → p.max_queue_size ≡ pos size
      → ltb (length p.workers) desired ≡ true
      → Sized desired p
  unfolding adjust_workers grow
  larger size q l =
      let n = desired - length p.workers in
      let e : start_workers n p.max_queue_size p.workers
          ≡ some (p.workers ++ replicate n (idle size)) =
        rw q (start_workers_lem n size p.workers) in
      record {
        pool = record p { workers = p.workers ++ replicate n (idle size) };
        returned = ground (arith, e);
        count = ground (
          arith,
          length-append p.workers (replicate n (idle size)),
          length-replicate n (idle size),
        );
        open_workers =
            All-append Open p.workers (replicate n (idle size)) o
              (All-replicate Open n (idle size) refl);
        adjusted = grown n size refl;
      }

  smaller : ltb desired (length p.workers) ≡ true → Sized desired p
  unfolding adjust_workers shrink
  smaller l =
      let keep = take desired p.workers in
      let out = drop desired p.workers in
      let parts : keep ++ out ≡ p.workers = take-append-drop desired p.workers in
      let n = length p.workers - desired in
      let (ko, oo) = All-first Open keep out (subst (All Open) (sym parts) o) in
      let kept : length keep ≡ desired = ground (arith, length-take desired p.workers) in
      let gone : length out ≡ n = length-drop desired p.workers in
      let e : stop_workers n 0 p.workers ≡ some (keep ++ map stopped out) =
        ap (stop_workers n 0) (sym parts ∙ sym (append-nil (keep ++ out)))
        ∙ stop_workers_lem n keep out [] gone oo
        ∙ ap some (append-nil (keep ++ map stopped out)) in
      let cut : length (keep ++ map stopped out) - n ≡ length keep =
        ground (arith, length-append keep (map stopped out), length-map-stopped out) in
      record {
        pool = record p { workers = keep; retired = p.retired ++ map stopped out };
        returned =
            ground (
              arith,
              e,
              cut,
              take-append keep (map stopped out),
              drop-append keep (map stopped out),
            );
        count = kept;
        open_workers = ko;
        adjusted = shrunk out (sym parts) refl;
      }

pub adjust_workers-Sized :
    (desired size : ℕ) (p : Pool)
    → p.max_queue_size ≡ pos size
    → All Open p.workers
    → Sized desired p
adjust_workers-Sized desired size p q o = elim (Bool-cases (ltb (length p.workers) desired)) [
  | inl l ↦ larger desired p o size q l
  | inr m ↦ elim (Bool-cases (ltb desired (length p.workers))) [
    | inl l ↦ smaller desired p o l
    | inr k ↦ same_size desired p o (ground arith)
  ]
]
