-- ===== src/Redis/Memory.antt =====
-- A database in memory on which every command succeeds. It shows that the behaviour assumed of
-- Redis can be met, and runs the tests; expiry is ignored.
use orbstrike.Common.{
  ◌≡◌, refl, sym, ap, ◌⊎◌, inl, ◌≢◌, ◌↔◌, Bool, true, false, ◌||◌, List, [], ◌∷◌, Option, none,
  some, Text, ℤ, pos, ◌+ℤ◌, Map, lookup, insert, delete, lookup-insert, lookup-delete, text_eq,
  text_eqb, text_eqb_iff, In, length, arith, format_int, atoi, if◌then◌else◌, Option-cases, inl,
  inr,
}
use orbstrike.Redis.{Redis, IsRedis, Same, Reply, ok, nil}

pub record Store : Type 0 where
  pub sets : Map Text (List Text)
  pub hashes : Map Text (Map Text Text)
  pub strings : Map Text Text

abbrev pub empty : Store
empty = record { sets = []; hashes = []; strings = [] }

abbrev or_empty {ℓ} : {A : Type ℓ} → Option (List A) → List A
or_empty none = []
or_empty (some l) = l

unfoldable pub set_at : Text → Store → List Text
set_at k d = or_empty (lookup k d.sets)

unfoldable pub hash_at : Text → Store → Map Text Text
hash_at k d = or_empty (lookup k d.hashes)

unfoldable pub contains : Text → List Text → Bool
contains x [] = false
contains x (y ∷ ys) = text_eqb y x || contains x ys

unfoldable pub remove : Text → List Text → List Text
remove x [] = []
remove x (y ∷ ys) = let rest = remove x ys in if text_eqb y x then rest else y ∷ rest

unfoldable pub remove_all : List Text → List Text → List Text
unfolding remove
remove_all [] ys = ys
remove_all (x ∷ xs) ys = remove_all xs (remove x ys)

abbrev put_set : Text → List Text → Store → Store
put_set k xs d = record d { sets = insert k xs d.sets }

abbrev put_hash : Text → Map Text Text → Store → Store
put_hash k m d = record d { hashes = insert k m d.hashes }

abbrev put_string : Text → Text → Store → Store
put_string k v d = record d { strings = insert k v d.strings }

abbrev reply_of {ℓ} : {A : Type ℓ} → Option A → Reply A
reply_of none = nil
reply_of (some a) = ok a

abbrev counter : Option Text → ℤ
counter none = pos 0
counter (some t) = elim (atoi t) [ none ↦ pos 0 | some z ↦ z ]

abbrev pub memory : Redis
memory = record {
  Db = Store;
  smembers = λ k d. (ok (set_at k d), d);
  sadd = λ k x d. (ok tt, put_set k (x ∷ remove x (set_at k d)) d);
  srem = λ k xs d. (ok tt, put_set k (remove_all xs (set_at k d)) d);
  hlen = λ k d. (ok (length (hash_at k d)), d);
  hgetall = λ k d. (ok (hash_at k d), d);
  hset = λ k f v d. (ok tt, put_hash k (insert f v (hash_at k d)) d);
  hdel = λ k f d. (ok tt, put_hash k (delete f (hash_at k d)) d);
  hexists = λ k f d. (elim (lookup f (hash_at k d)) [ none ↦ ok false | some v ↦ ok true ], d);
  get = λ k d. (reply_of (lookup k d.strings), d);
  set_string = λ k v e d. (ok tt, put_string k v d);
  setnx = λ k v ttl d. (ok tt, elim (lookup k d.strings) [ none ↦ put_string k v d | some w ↦ d ]);
  del = λ k d. (
    ok tt,
    record { sets = delete k d.sets; hashes = delete k d.hashes; strings = delete k d.strings },
  );
  incr =
      λ k d. let n = counter (lookup k d.strings) +ℤ pos 1 in (ok n, put_string k (format_int n) d);
  expire = λ k ttl d. (ok tt, d);
  member = λ d k x. contains x (set_at k d);
  field = λ d k f. lookup f (hash_at k d);
  size = λ d k. length (hash_at k d);
}

contains-In : (x : Text) (ys : List Text) → In x ys ↔ (contains x ys ≡ true)
unfolding contains
contains-In x [] = ground arith
contains-In x (y ∷ ys) = ground (arith, contains-In x ys, text_eqb_iff y x)

contains-remove :
    (x y : Text) (ys : List Text) → (contains x (remove y ys) ≡ contains x ys) ⊎ (y ≡ x)
unfolding contains remove
contains-remove x y [] = inl refl
contains-remove x y (z ∷ ys) =
    ground (arith, contains-remove x y ys, text_eqb_iff z y, text_eqb_iff z x)

contains-remove_all :
    (x : Text) (xs ys : List Text) → (contains x (remove_all xs ys) ≡ contains x ys) ⊎ In x xs
unfolding remove_all
contains-remove_all x [] ys = inl refl
contains-remove_all x (y ∷ xs) ys =
    ground (arith, contains-remove_all x xs (remove y ys), contains-remove x y ys)

set_at-put_set :
    (k j : Text) (xs : List Text) (d : Store)
    → set_at j (put_set k xs d) ≡ (if text_eqb k j then xs else set_at j d)
unfolding set_at
set_at-put_set k j xs d = ground (arith, lookup-insert k j xs d.sets)

hash_at-put_hash :
    (k j : Text) (m : Map Text Text) (d : Store)
    → hash_at j (put_hash k m d) ≡ (if text_eqb k j then m else hash_at j d)
unfolding hash_at
hash_at-put_hash k j m d = ground (arith, lookup-insert k j m d.hashes)

memory-Same : (d : Store) → Same memory d d
memory-Same d = record { sets = λ k x. refl; hashes = λ k f. refl; sizes = λ k. refl }

srem_memory :
    (k : Text) (xs : List Text) (d : Store) (j x : Text)
    → (contains x (set_at j (put_set k (remove_all xs (set_at k d)) d)) ≡ contains x (set_at j d))
      ⊎ ((j ≡ k) × In x xs)
srem_memory k xs d j x = ground (
  arith,
  text_eqb_iff k j,
  set_at-put_set k j (remove_all xs (set_at k d)) d,
  contains-remove_all x xs (set_at k d),
)

sadd_memory :
    (k y : Text) (d : Store) (j x : Text)
    → (contains x (set_at j (put_set k (y ∷ remove y (set_at k d)) d)) ≡ contains x (set_at j d))
      ⊎ ((j ≡ k)
          × (x ≡ y)
          × (contains x (set_at j (put_set k (y ∷ remove y (set_at k d)) d)) ≡ true))
unfolding contains
sadd_memory k y d j x = ground (
  arith,
  text_eqb_iff k j,
  text_eqb_iff y x,
  set_at-put_set k j (y ∷ remove y (set_at k d)) d,
  contains-remove x y (set_at k d),
)

hset_memory :
    (k f v : Text) (d : Store) (j g : Text)
    → (lookup g (hash_at j (put_hash k (insert f v (hash_at k d)) d)) ≡ lookup g (hash_at j d))
      ⊎ ((j ≡ k)
          × (g ≡ f)
          × (lookup g (hash_at j (put_hash k (insert f v (hash_at k d)) d)) ≡ some v))
hset_memory k f v d j g = ground (
  arith,
  text_eqb_iff k j,
  text_eqb_iff f g,
  hash_at-put_hash k j (insert f v (hash_at k d)) d,
  lookup-insert f g v (hash_at k d),
)

hset_ok_memory :
    (k f v : Text) (d : Store)
    → lookup f (hash_at k (put_hash k (insert f v (hash_at k d)) d)) ≡ some v
hset_ok_memory k f v d = ground (
  arith,
  text_eqb_iff k k,
  text_eqb_iff f f,
  hash_at-put_hash k k (insert f v (hash_at k d)) d,
  lookup-insert f f v (hash_at k d),
)

del_memory {ℓ} :
    {A : Type ℓ} (k j : Text) (m : Map Text A) → j ≢ k → lookup j (delete k m) ≡ lookup j m
del_memory k j m ne = ground (arith, lookup-delete k j m, text_eqb_iff k j)

ok_inj {ℓ} : {A : Type ℓ} {a b : A} → ok a ≡ ok b → a ≡ b
ok_inj h = cc

setnx_memory : (k v : Text) (ttl : ℤ) (d : Store) → Same memory d (memory.setnx k v ttl d).1
unfolding set_at hash_at
setnx_memory k v ttl d = elim (Option-cases (lookup k d.strings)) [
  | inl e ↦ rw (e, memory) (record { sets = λ j x. refl; hashes = λ j g. refl; sizes = λ j. refl })
  | inr (w, e) ↦ rw (e, memory) (memory-Same d)
]

pub memory-IsRedis : IsRedis memory
unfolding set_at hash_at
memory-IsRedis = record {
  smembers_same = λ k d. memory-Same d;
  smembers_ok =
      λ k d l h x. let e : set_at k d ≡ l = ok_inj h in rw (← e) (contains-In x (set_at k d));
  hlen_same = λ k d. memory-Same d;
  hlen_ok = λ k d n h. sym (ok_inj h);
  hgetall_same = λ k d. memory-Same d;
  hgetall_ok = λ k d m h f. let e : hash_at k d ≡ m = ok_inj h in rw (← e) refl;
  hgetall_nil = λ k d h f. cc;
  get_same = λ k d. memory-Same d;
  setnx_same = setnx_memory;
  srem_hashes = λ k xs d j f. refl;
  srem_sets = srem_memory;
  sadd_hashes = λ k y d j f. refl;
  sadd_sets = sadd_memory;
  hset_sets = λ k f v d j x. refl;
  hset_hashes = hset_memory;
  hset_ok = λ k f v d u h. hset_ok_memory k f v d;
  del_sets = λ k d j x ne. ap (λ o. contains x (or_empty o)) (del_memory k j d.sets ne);
  del_hashes = λ k d j f ne. ap (λ o. lookup f (or_empty o)) (del_memory k j d.hashes ne);
}
