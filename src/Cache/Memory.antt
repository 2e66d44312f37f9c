-- ===== src/Cache/Memory.antt =====
-- A server that meets the laws of `Redis`: entries as a function of their keys. It shows that the
-- laws can hold together, and runs the tests.
use fullstackhex.Base.{
  ℕ, ◌≡◌, refl, Text, List, Option, none, some, text_eq, ltb, if◌then◌else◌, filter, ok, err,
}
use fullstackhex.Cache.Redis.{
  Redis, Reply, Entry, str, zset_of, zset_entry, keep_ttl, zinsert, without, incremented, expiring,
  added, removed, aged,
}

abbrev pub Store : Type 0
Store = Text → Option Entry

abbrev pub update : Text → Option Entry → Store → Store
update k e d = λ j. if text_eq k j then e else d j

abbrev pub replaced :
    Text → (List (ℕ × Text) → List (ℕ × Text)) → Reply (List (ℕ × Text)) → Store → Store
replaced k f (ok es) d = update k (zset_entry (keep_ttl (d k)) (f es)) d
replaced k f (err e) d = d

abbrev pub on_zset : Text → (List (ℕ × Text) → List (ℕ × Text)) → Store → Store
on_zset k f d = replaced k f (zset_of (d k)) d

pub on_zset_lem :
    (k : Text) (f : List (ℕ × Text) → List (ℕ × Text)) (d : Store) (j : Text) (es : List (ℕ × Text))
    → zset_of (d k) ≡ ok es
    → on_zset k f d j ≡ (if text_eq k j then zset_entry (keep_ttl (d k)) (f es) else d j)
on_zset_lem k f d j es h = rw (h, replaced)

abbrev pub memory : Redis
memory = record {
  Db = Store;
  lookup = λ d j. d j;
  set_ex = λ k v secs d. update k (some (record { value = str v; ttl = some secs })) d;
  del = λ k d. update k none d;
  incr = λ k d. update k (incremented (d k)) d;
  expire = λ k secs d. update k (expiring secs (d k)) d;
  zrem_up_to = λ k max d. on_zset k (filter (λ e. ltb max e.0)) d;
  zadd = λ k score m d. on_zset k (λ es. zinsert score m (without m es)) d;
  sadd = λ k m d. update k (added m (d k)) d;
  srem = λ k m d. update k (removed m (d k)) d;
  rename = λ a b d. update b (d a) (update a none d);
  wait = λ n d j. aged n (d j);
  lookup-set_ex = λ k v secs d j live. refl;
  lookup-del = λ k d j. refl;
  lookup-incr = λ k d j. refl;
  lookup-expire = λ k secs d j live. refl;
  lookup-zrem_up_to = λ k max d j es h. on_zset_lem k (filter (λ e. ltb max e.0)) d j es h;
  lookup-zadd = λ k score m d j es h. on_zset_lem k (λ xs. zinsert score m (without m xs)) d j es h;
  lookup-sadd = λ k m d j. refl;
  lookup-srem = λ k m d j. refl;
  lookup-rename = λ a b d j h. refl;
  lookup-wait = λ n d j. refl;
}

abbrev pub empty : Store
empty j = none
