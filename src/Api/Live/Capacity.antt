-- ===== src/Api/Live/Capacity.antt =====
-- backend/api/src/live.rs: the slots under any interleaving of requests and of the ends of sockets.
-- A request, the start of an upgraded socket, its end and an upgrade that is abandoned are the steps.
pub mod Reached
use fullstackhex.Base.{
  arith, ℕ, suc, ◌+◌, ◌-◌, ◌≤◌, ◌<◌, ◌≡◌, Bool, true, false, Text, text_eq, text_eq_refl,
  text_eq_iff, List, [], ◌∷◌, ◌++◌, length, Option, none, some, if◌then◌else◌, Result, ok, err,
  Bool-cases, inl, inr, refl, opt_text_eq, leb, ◌==◌, ap, sym, ◌⊎◌, ◌∙◌,
}
use fullstackhex.Api.Live.{
  Slots, Refusal, admit, start_socket, end_socket, abandon_upgrade, count_of, put, drop_count,
}

-- A permit that was given: whose it is, and whether its socket runs yet.
pub record Conn : Type 0 where
  pub user : Option Text
  pub running : Bool

-- The slots, the permits in use, and the users of upgrades that were abandoned.
pub record System : Type 0 where
  pub slots : Slots
  pub conns : List Conn
  pub lost : List (Option Text)

abbrev pub running : Option Text → Conn
running u = record { user = u; running = true }

abbrev pub waiting : Option Text → Conn
waiting u = record { user = u; running = false }

-- One step of the server, `per_user` connections allowed to a user. Sockets end in any order.
pub data Step (per_user : ℕ) (s : System) : System → Type 0 where
  permit :
      (u : Option Text) {t : Slots}
      → admit per_user u s.slots ≡ (ok tt, t)
      → Step per_user s (record { slots = t; conns = waiting u ∷ s.conns; lost = s.lost })
  reject :
      (u : Option Text) {e : Refusal} {t : Slots}
      → admit per_user u s.slots ≡ (err e, t)
      → Step per_user s (record { slots = t; conns = s.conns; lost = s.lost })
  start :
      (xs : List Conn) (u : Option Text) (ys : List Conn)
      → s.conns ≡ xs ++ waiting u ∷ ys
      → Step per_user s
          (record { slots = start_socket s.slots; conns = xs ++ running u ∷ ys; lost = s.lost })
  finish :
      (xs : List Conn) (u : Option Text) (ys : List Conn)
      → s.conns ≡ xs ++ running u ∷ ys
      → Step per_user s (record { slots = end_socket u s.slots; conns = xs ++ ys; lost = s.lost })
  abandon :
      (xs : List Conn) (u : Option Text) (ys : List Conn)
      → s.conns ≡ xs ++ waiting u ∷ ys
      → Step per_user s
          (record { slots = abandon_upgrade s.slots; conns = xs ++ ys; lost = u ∷ s.lost })

abbrev pub init : ℕ → System
init permits = record {
  slots = record { free = permits; users = λ u. none; active = 0 };
  conns = [];
  lost = [];
}

pub data Reach (permits per_user : ℕ) : System → Type 0 where
  initial : Reach permits per_user (init permits)
  later : {s t : System} → Reach permits per_user s → Step per_user s t → Reach permits per_user t

abbrev pub bit : Bool → ℕ
bit true = 1
bit false = 0

-- The permits of a user, the running sockets, and a user's abandoned upgrades.
abbrev pub held : Text → List Conn → ℕ
held v [] = 0
held v (c ∷ cs) = bit (opt_text_eq c.user v) + held v cs

abbrev pub sockets : List Conn → ℕ
sockets [] = 0
sockets (c ∷ cs) = bit c.running + sockets cs

abbrev pub leaked : Text → List (Option Text) → ℕ
leaked v [] = 0
leaked v (u ∷ us) = bit (opt_text_eq u v) + leaked v us

-- What the slots say about the permits in use.
pub record Inv (permits per_user : ℕ) (s : System) : Type 0 where
  pub permits_kept : s.slots.free + length s.conns ≡ permits
  pub sockets_counted : s.slots.active ≡ sockets s.conns
  pub users_counted : (v : Text) → count_of (s.slots.users v) ≡ held v s.conns + leaked v s.lost
  pub users_capped : (v : Text) → count_of (s.slots.users v) ≤ per_user

pub held-append : (v : Text) (xs ys : List Conn) → held v (xs ++ ys) ≡ held v xs + held v ys
held-append v [] ys = omega arith
held-append v (x ∷ xs) ys = omega (arith, held-append v xs ys)

pub sockets-append : (xs ys : List Conn) → sockets (xs ++ ys) ≡ sockets xs + sockets ys
sockets-append [] ys = omega arith
sockets-append (x ∷ xs) ys = omega (arith, sockets-append xs ys)

count-drop : (o : Option ℕ) → count_of (drop_count o) ≡ count_of o - 1
count-drop none = omega arith
count-drop (some n) = ground arith

-- A map with a new count for one user.
count-put :
    (u v : Text) (o : Option ℕ) (m : Text → Option ℕ)
    → ((text_eq u v ≡ true) × (count_of (put u o m v) ≡ count_of o) × (m v ≡ m u))
      ⊎ ((text_eq u v ≡ false) × (count_of (put u o m v) ≡ count_of (m v)))
count-put u v o m = elim (Bool-cases (text_eq u v)) [
  | inl e ↦ inl (e, rw e refl, ap m (sym ((text_eq_iff u v).0 e)))
  | inr e ↦ inr (e, rw e refl)
]

-- What the end of a socket of `u`, or a permit for it, does to the count of `v`.
pub count-end :
    (u : Option Text) (s : Slots) (v : Text)
    → count_of ((end_socket u s).users v) ≡ count_of (s.users v) - bit (opt_text_eq u v)
unfolding end_socket
count-end none s v = omega arith
count-end (some u) s v =
    ground (arith, count-put u v (drop_count (s.users u)) s.users, count-drop (s.users u))

-- What a permit for `u` changes.
pub record Admitted (per_user : ℕ) (u : Option Text) (s t : Slots) : Type 0 where
  pub one_less : t.free + 1 ≡ s.free
  pub same_active : t.active ≡ s.active
  pub counted : (v : Text) → count_of (t.users v) ≡ count_of (s.users v) + bit (opt_text_eq u v)
  pub capped : (v : Text) → count_of (s.users v) ≤ per_user → count_of (t.users v) ≤ per_user

pub admit-ok :
    (per_user : ℕ) (u : Option Text) (s t : Slots)
    → admit per_user u s ≡ (ok tt, t)
    → Admitted per_user u s t
unfolding admit
admit-ok per_user none s t h = elim (Bool-cases (s.free == 0)) [
  | inl e ↦ absurd (cc (rw e at h))
  | inr e ↦ rw (sym (ap (λ r. r.1) (rw e at h))) (record {
    one_less = ground arith;
    same_active = refl;
    counted = λ v. omega arith;
    capped = λ v k. k;
  })
]
admit-ok per_user (some u) s t h = elim (Bool-cases (s.free == 0)) [
  | inl e ↦ absurd (cc (rw e at h))
  | inr e ↦ elim (Bool-cases (leb per_user (count_of (s.users u)))) [
    | inl l ↦ absurd (cc (rw (e, l) at h))
    | inr l ↦ rw (sym (ap (λ r. r.1) (rw (e, l) at h))) (record {
      one_less = ground arith;
      same_active = refl;
      counted =
          λ v. ground (arith, count-put u v (some (count_of (s.users u) + 1)) s.users, ap count_of);
      capped = λ v k. ground (arith, count-put u v (some (count_of (s.users u) + 1)) s.users);
    })
  ]
]

give_back : (s : Slots) → s.free - 1 + 1 ≡ s.free → record s { free = s.free - 1 + 1 } ≡ s
give_back s e = rw e refl

-- A refusal leaves the slots as they were.
pub admit-err :
    (per_user : ℕ) (u : Option Text) (s t : Slots) (e : Refusal)
    → admit per_user u s ≡ (err e, t)
    → t ≡ s
unfolding admit
admit-err per_user none s t x h = elim (Bool-cases (s.free == 0)) [
  | inl e ↦ sym (ap (λ r. r.1) (rw e at h))
  | inr e ↦ absurd (cc (rw e at h))
]
admit-err per_user (some u) s t x h = elim (Bool-cases (s.free == 0)) [
  | inl e ↦ sym (ap (λ r. r.1) (rw e at h))
  | inr e ↦ elim (Bool-cases (leb per_user (count_of (s.users u)))) [
    | inl l ↦ sym (ap (λ r. r.1) (rw (e, l) at h)) ∙ give_back s (ground arith)
    | inr l ↦ absurd (cc (rw (e, l) at h))
  ]
]
