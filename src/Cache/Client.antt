-- ===== src/Cache/Client.antt =====
-- `RedisClient` of backend/cache/src/lib.rs: keys, and a command over the network. Each call takes
-- the next turn of the network: what other clients do to the server before it, and whether the
-- command is executed and its reply arrives. The client library's error text is the turn's.
use fullstackhex.Base.{
  ℕ, Text, List, [], ◌∷◌, ◌++◌, Option, none, some, Result, ok, err, decimal, map_err,
}
use fullstackhex.Base.Exec.{Exec}
use fullstackhex.Domain.Errors.{CacheError, command_failed}
use fullstackhex.Cache.Redis.{Redis, Entry, Reply, wrong_type, str, counter}

pub data Outcome : Type 0 where
  done : Outcome
  lost late : Text → Outcome

-- `Session` of backend/cache/src/session.rs.
pub record Session : Type 0 where
  pub user_id : Text
  pub email : Text
  pub name : Option Text
  pub provider : Text
  pub created_at : ℕ

module _ (R : Redis) where
  pub record Turn : Type 0 where
    pub before : R.Db → R.Db
    pub outcome : Outcome

  -- One process: the server's state, the turns to come (calls beyond the list are undisturbed), the
  -- clock in milliseconds since the epoch, the random texts to come, and the in-process cache of
  -- sessions with the time at which each entry goes stale.
  pub record World : Type 0 where
    pub db : R.Db
    pub net : List Turn
    pub now_ms : ℕ
    pub random : ℕ → Text
    pub sessions : List (Text × ℕ × Session)

  abbrev pub CacheM : Type 0 → Type 0
  CacheM A = Exec World CacheError A

  abbrev pub execute : {A : Type 0} → Outcome → (R.Db → Reply A × R.Db) → R.Db → Reply A × R.Db
  execute done f d = f d
  execute (lost e) f d = (err e, d)
  execute (late e) f d = (err e, (f d).1)

  abbrev pub settle :
      {A : Type 0} → World → List Turn → Reply A × R.Db → Result CacheError A × World
  settle w rest (r, d) = (map_err command_failed r, record w { db = d; net = rest })

  -- `.await.map_err(CacheError::CommandFailed)`
  abbrev pub call : {A : Type 0} → (R.Db → Reply A × R.Db) → CacheM A
  call f w = elim w.net [
    | [] ↦ settle w [] (f w.db)
    | turn ∷ rest ↦ settle w rest (execute turn.outcome f (turn.before w.db))
  ]

-- GET's reply for an entry.
abbrev pub string_of : Option Entry → Reply (Option Text)
string_of none = ok none
string_of (some e) = elim e.value [
  | str v ↦ ok (some v)
  | counter n ↦ ok (some (decimal n))
  | _ ↦ err wrong_type
]

-- `make_key`: "{prefix}:{namespace}:{key}".
unfoldable pub make_key : Text → Text → Text → Text
make_key prefix namespace key = prefix ++ 58 ∷ (namespace ++ 58 ∷ key)
