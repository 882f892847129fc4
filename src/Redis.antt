-- ===== src/Redis.antt =====
-- The client of github.com/redis/go-redis, as an interface: the commands that the program sends, and
-- what the database holds. Every command may fail, and may then have been carried out or not.

pub mod Memory
use orbstrike.Common.{
  ℕ, Bool, true, false, List, Option, none, some, ◌≡◌, refl, ◌∙◌, ◌⊎◌, ◌↔◌, ◌≢◌, Text, ℤ, Map,
  lookup, Unique, text_eq, In,
}

-- `nil` is redis.Nil.
pub data Reply {ℓ} (A : Type ℓ) : Type ℓ where
  ok : A → Reply A
  nil : Reply A
  failed : Text → Reply A

-- To split on a reply and keep the equation.
pub data ReplyIs {ℓ} {A : Type ℓ} (x : Reply A) : Type ℓ where
  is_ok : (a : A) → x ≡ ok a → ReplyIs x
  is_nil : x ≡ nil → ReplyIs x
  is_failed : (e : Text) → x ≡ failed e → ReplyIs x

pub Reply-cases {ℓ} : {A : Type ℓ} (x : Reply A) → ReplyIs x
Reply-cases (ok a) = is_ok a refl
Reply-cases nil = is_nil refl
Reply-cases (failed e) = is_failed e refl

pub data Expiry : Type 0 where
  keep_ttl : Expiry
  after : ℤ → Expiry  -- a time.Duration in nanoseconds

-- `Db` is the database as one client meets it, with the network's and the clock's moods.
pub record Redis : Type 1 where
  pub Db : Type 0
  pub smembers : Text → Db → Reply (List Text) × Db
  pub sadd : Text → Text → Db → Reply (Unit {0}) × Db
  pub srem : Text → List Text → Db → Reply (Unit {0}) × Db
  pub hlen : Text → Db → Reply ℕ × Db
  pub hgetall : Text → Db → Reply (Map Text Text) × Db
  pub hset : Text → Text → Text → Db → Reply (Unit {0}) × Db
  pub hdel : Text → Text → Db → Reply (Unit {0}) × Db
  pub hexists : Text → Text → Db → Reply Bool × Db
  pub get : Text → Db → Reply Text × Db
  pub set_string : Text → Text → Expiry → Db → Reply (Unit {0}) × Db
  pub setnx : Text → Text → ℤ → Db → Reply (Unit {0}) × Db
  pub del : Text → Db → Reply (Unit {0}) × Db
  pub incr : Text → Db → Reply ℤ × Db
  pub expire : Text → ℤ → Db → Reply (Unit {0}) × Db
  -- what the database holds in its sets and hashes
  pub member : Db → Text → Text → Bool
  pub field : Db → Text → Text → Option Text
  pub size : Db → Text → ℕ

-- The sets and hashes are the same before and after.
pub record Same (r : Redis) (d d' : r.Db) : Type 0 where
  pub sets : (k x : Text) → r.member d' k x ≡ r.member d k x
  pub hashes : (k f : Text) → r.field d' k f ≡ r.field d k f
  pub sizes : (k : Text) → r.size d' k ≡ r.size d k

module _ (r : Redis) where
  pub Same-refl : (d : r.Db) → Same r d d
  Same-refl d = record { sets = λ k x. refl; hashes = λ k f. refl; sizes = λ k. refl }

  pub Same-trans : {d e f : r.Db} → Same r d e → Same r e f → Same r d f
  Same-trans a b = record {
    sets = λ k x. b.sets k x ∙ a.sets k x;
    hashes = λ k f. b.hashes k f ∙ a.hashes k f;
    sizes = λ k. b.sizes k ∙ a.sizes k;
  }

-- The documented effect of the commands on sets and hashes, for a client that runs alone between
-- its commands. Keys of sets and hashes have no time to live in this program.
pub record IsRedis (r : Redis) : Type 0 where
  pub smembers_same : (k : Text) (d : r.Db) → Same r d (r.smembers k d).1
  pub smembers_ok :
      (k : Text) (d : r.Db) (l : List Text)
      → (r.smembers k d).0 ≡ ok l
      → (x : Text) → In x l ↔ (r.member d k x ≡ true)
  pub hlen_same : (k : Text) (d : r.Db) → Same r d (r.hlen k d).1
  pub hlen_ok : (k : Text) (d : r.Db) (n : ℕ) → (r.hlen k d).0 ≡ ok n → n ≡ r.size d k
  pub hgetall_same : (k : Text) (d : r.Db) → Same r d (r.hgetall k d).1
  pub hgetall_ok :
      (k : Text) (d : r.Db) (m : Map Text Text)
      → (r.hgetall k d).0 ≡ ok m
      → (f : Text) → lookup f m ≡ r.field d k f
  pub hgetall_nil :
      (k : Text) (d : r.Db) → (r.hgetall k d).0 ≡ nil → (f : Text) → r.field d k f ≡ none
  pub get_same : (k : Text) (d : r.Db) → Same r d (r.get k d).1
  pub setnx_same : (k v : Text) (ttl : ℤ) (d : r.Db) → Same r d (r.setnx k v ttl d).1
  -- a set command touches one set
  pub srem_hashes :
      (k : Text) (xs : List Text) (d : r.Db) (j f : Text)
      → r.field (r.srem k xs d).1 j f ≡ r.field d j f
  pub srem_sets :
      (k : Text) (xs : List Text) (d : r.Db) (j x : Text)
      → (r.member (r.srem k xs d).1 j x ≡ r.member d j x) ⊎ ((j ≡ k) × In x xs)
  pub sadd_hashes :
      (k y : Text) (d : r.Db) (j f : Text) → r.field (r.sadd k y d).1 j f ≡ r.field d j f
  pub sadd_sets :
      (k y : Text) (d : r.Db) (j x : Text)
      → (r.member (r.sadd k y d).1 j x ≡ r.member d j x)
        ⊎ ((j ≡ k) × (x ≡ y) × (r.member (r.sadd k y d).1 j x ≡ true))
  -- a hash command touches one field, and has done so when it answers
  pub hset_sets :
      (k f v : Text) (d : r.Db) (j x : Text) → r.member (r.hset k f v d).1 j x ≡ r.member d j x
  pub hset_hashes :
      (k f v : Text) (d : r.Db) (j g : Text)
      → (r.field (r.hset k f v d).1 j g ≡ r.field d j g)
        ⊎ ((j ≡ k) × (g ≡ f) × (r.field (r.hset k f v d).1 j g ≡ some v))
  pub hset_ok :
      (k f v : Text) (d : r.Db) (u : Unit {0})
      → (r.hset k f v d).0 ≡ ok u
      → r.field (r.hset k f v d).1 k f ≡ some v
  -- `del` removes one key
  pub del_sets :
      (k : Text) (d : r.Db) (j x : Text) → j ≢ k → r.member (r.del k d).1 j x ≡ r.member d j x
  pub del_hashes :
      (k : Text) (d : r.Db) (j f : Text) → j ≢ k → r.field (r.del k d).1 j f ≡ r.field d j f
