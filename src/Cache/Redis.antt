-- ===== src/Cache/Redis.antt =====
-- The Redis server as the source uses it: a parameter. Its state is seen through `lookup`, the live
-- entry of a key; each command has one law, its documented effect on the entries of all keys.
-- Scores and counters are exact, which Redis and its Lua scripts guarantee below 2^53.
use fullstackhex.Base.{
  false, ℕ, suc, ◌-◌, ◌<◌, ◌≡◌, Bool, not, Text, List, [], ◌∷◌, Option, none, some, text_eq, ltb,
  if◌then◌else◌, filter, Result, ok, err, codes, any,
}

pub data Value : Type 0 where
  str : Text → Value
  counter : ℕ → Value
  zset : List (ℕ × Text) → Value
  members : List Text → Value

-- A value and the seconds left to live, none for a key without expiry.
pub record Entry : Type 0 where
  pub value : Value
  pub ttl : Option ℕ

-- The reply of a command, or the text of an error reply.
abbrev pub Reply : Type 0 → Type 0
Reply A = Result Text A

abbrev pub wrong_type : Text
wrong_type = codes "WRONGTYPE Operation against a key holding the wrong kind of value"

-- ZADD: the member at its score, members of one score in any order; an older score is dropped.
abbrev pub without : Text → List (ℕ × Text) → List (ℕ × Text)
without m = filter (λ e. not (text_eq m e.1))

abbrev pub zinsert : ℕ → Text → List (ℕ × Text) → List (ℕ × Text)
zinsert s m [] = (s, m) ∷ []
zinsert s m ((t, n) ∷ es) =
    let rest = zinsert s m es in if ltb s t then (s, m) ∷ (t, n) ∷ es else (t, n) ∷ rest

abbrev pub zset_of : Option Entry → Reply (List (ℕ × Text))
zset_of none = ok []
zset_of (some e) = elim e.value [ zset es ↦ ok es | _ ↦ err wrong_type ]

abbrev pub keep_ttl : Option Entry → Option ℕ
keep_ttl none = none
keep_ttl (some e) = e.ttl

-- A sorted set that becomes empty is removed with its key.
abbrev pub zset_entry : Option ℕ → List (ℕ × Text) → Option Entry
zset_entry ttl [] = none
zset_entry ttl (e ∷ es) = some (record { value = zset (e ∷ es); ttl = ttl })

abbrev pub incremented : Option Entry → Option Entry
incremented none = some (record { value = counter 1; ttl = none })
incremented (some e) = elim e.value [
  | counter n ↦ some (record { value = counter (suc n); ttl = e.ttl })
  | _ ↦ some e
]

abbrev pub expiring : ℕ → Option Entry → Option Entry
expiring secs none = none
expiring secs (some e) = some (record { value = e.value; ttl = some secs })

abbrev pub has_member : Text → List Text → Bool
has_member m = any (text_eq m)

abbrev pub added : Text → Option Entry → Option Entry
added m none = some (record { value = members (m ∷ []); ttl = none })
added m (some e) = elim e.value [
  | members ms ↦
      some (record { value = members (if has_member m ms then ms else m ∷ ms); ttl = e.ttl })
  | _ ↦ some e
]

-- A set that becomes empty is removed with its key.
abbrev pub set_entry : Option ℕ → List Text → Option Entry
set_entry ttl [] = none
set_entry ttl (m ∷ ms) = some (record { value = members (m ∷ ms); ttl = ttl })

abbrev pub removed : Text → Option Entry → Option Entry
removed m none = none
removed m (some e) = elim e.value [
  | members ms ↦ set_entry e.ttl (filter (λ n. not (text_eq m n)) ms)
  | _ ↦ some e
]

-- After a number of seconds.
abbrev pub aged : ℕ → Option Entry → Option Entry
aged n none = none
aged n (some e) = elim e.ttl [
  | none ↦ some e
  | some t ↦ if ltb n t then some (record { value = e.value; ttl = some (t - n) }) else none
]

pub record Redis : Type 1 where
  pub Db : Type 0
  pub lookup : Db → Text → Option Entry
  pub set_ex : Text → Text → ℕ → Db → Db
  pub del : Text → Db → Db
  pub incr : Text → Db → Db
  pub expire : Text → ℕ → Db → Db
  -- ZREMRANGEBYSCORE key -inf max
  pub zrem_up_to : Text → ℕ → Db → Db
  pub zadd : Text → ℕ → Text → Db → Db
  pub sadd : Text → Text → Db → Db
  pub srem : Text → Text → Db → Db
  -- RENAME from to, for a key that exists
  pub rename : Text → Text → Db → Db
  pub wait : ℕ → Db → Db
  pub lookup-set_ex :
      (k v : Text) (secs : ℕ) (d : Db) (j : Text)
      → 0 < secs
      → lookup (set_ex k v secs d) j
        ≡ (if text_eq k j then some (record { value = str v; ttl = some secs }) else lookup d j)
  pub lookup-del :
      (k : Text) (d : Db) (j : Text)
      → lookup (del k d) j ≡ (if text_eq k j then none else lookup d j)
  pub lookup-incr :
      (k : Text) (d : Db) (j : Text)
      → lookup (incr k d) j ≡ (if text_eq k j then incremented (lookup d k) else lookup d j)
  pub lookup-expire :
      (k : Text) (secs : ℕ) (d : Db) (j : Text)
      → 0 < secs
      → lookup (expire k secs d) j
        ≡ (if text_eq k j then expiring secs (lookup d k) else lookup d j)
  pub lookup-zrem_up_to :
      (k : Text) (max : ℕ) (d : Db) (j : Text) (es : List (ℕ × Text))
      → zset_of (lookup d k) ≡ ok es
      → lookup (zrem_up_to k max d) j ≡ (
          if text_eq k j
          then zset_entry (keep_ttl (lookup d k)) (filter (λ e. ltb max e.0) es)
          else lookup d j)
  pub lookup-zadd :
      (k : Text) (score : ℕ) (m : Text) (d : Db) (j : Text) (es : List (ℕ × Text))
      → zset_of (lookup d k) ≡ ok es
      → lookup (zadd k score m d) j ≡ (
          if text_eq k j
          then zset_entry (keep_ttl (lookup d k)) (zinsert score m (without m es))
          else lookup d j)
  pub lookup-sadd :
      (k m : Text) (d : Db) (j : Text)
      → lookup (sadd k m d) j ≡ (if text_eq k j then added m (lookup d k) else lookup d j)
  pub lookup-srem :
      (k m : Text) (d : Db) (j : Text)
      → lookup (srem k m d) j ≡ (if text_eq k j then removed m (lookup d k) else lookup d j)
  pub lookup-rename :
      (from to : Text) (d : Db) (j : Text)
      → text_eq from to ≡ false
      → lookup (rename from to d) j
        ≡ (if text_eq to j then lookup d from else if text_eq from j then none else lookup d j)
  pub lookup-wait : (n : ℕ) (d : Db) (j : Text) → lookup (wait n d) j ≡ aged n (lookup d j)
