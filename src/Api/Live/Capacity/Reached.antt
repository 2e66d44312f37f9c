-- ===== src/Api/Live/Capacity/Reached.antt =====
-- backend/api/src/live.rs: what holds of the slots in every state that the server can reach.
use fullstackhex.Base.{
  arith, ℕ, suc, ◌+◌, ◌≤◌, ◌<◌, ◌≡◌, ◌↔◌, Text, List, ◌∷◌, ◌++◌, length, length-append, Option,
  some, ok, refl, opt_text_eq, Bool-cases, inl, inr, leb, ◌==◌, ap,
}
use fullstackhex.Api.Live.{Slots, admit, start_socket, end_socket, abandon_upgrade, count_of}
use fullstackhex.Api.Live.Capacity.{
  System, Conn, Step, permit, reject, start, finish, abandon, init, Reach, initial, later, Inv, bit,
  held, sockets, leaked, running, waiting, held-append, sockets-append, count-end, admit-ok,
  admit-err,
}

Inv-init : (permits per_user : ℕ) → Inv permits per_user (init permits)
Inv-init permits per_user = record {
  permits_kept = omega arith;
  sockets_counted = refl;
  users_counted = λ v. omega arith;
  users_capped = λ v. omega arith;
}

-- One permit among others.
length-middle :
    (xs : List Conn) (c : Conn) (ys : List Conn) → length (xs ++ c ∷ ys) ≡ suc (length (xs ++ ys))
length-middle xs c ys = omega (arith, length-append xs (c ∷ ys), length-append xs ys)

held-middle :
    (v : Text) (xs : List Conn) (c : Conn) (ys : List Conn)
    → held v (xs ++ c ∷ ys) ≡ bit (opt_text_eq c.user v) + held v (xs ++ ys)
held-middle v xs c ys = omega (arith, held-append v xs (c ∷ ys), held-append v xs ys)

sockets-middle :
    (xs : List Conn) (c : Conn) (ys : List Conn)
    → sockets (xs ++ c ∷ ys) ≡ bit c.running + sockets (xs ++ ys)
sockets-middle xs c ys = omega (arith, sockets-append xs (c ∷ ys), sockets-append xs ys)

admits :
    (most : ℕ) (v : Text) (s : Slots)
    → ((t : Slots) × (admit most (some v) s ≡ (ok tt, t)))
      ↔ ((0 < s.free) × (count_of (s.users v) < most))
unfolding admit
admits most v s = elim (Bool-cases (s.free == 0)) [
  | inl e ↦ (λ h. absurd (cc (rw e at h.1)), λ h. absurd (ground (arith, h.0)))
  | inr e ↦ elim (Bool-cases (leb most (count_of (s.users v)))) [
    | inl l ↦ (λ h. absurd (cc (rw (e, l) at h.1)), λ h. absurd (ground (arith, h.1)))
    | inr l ↦ (λ h. (ground arith, ground arith), λ h. ((admit most (some v) s).1, rw (e, l) refl))
  ]
]

module _ {permits per_user : ℕ} where
  Inv-permit :
      {s : System} (u : Option Text) {t : Slots}
      → admit per_user u s.slots ≡ (ok tt, t)
      → Inv permits per_user s
      → Inv permits per_user (record { slots = t; conns = waiting u ∷ s.conns; lost = s.lost })
  Inv-permit {s} u {t} h inv =
      let a = admit-ok per_user u s.slots t h in
      record {
        permits_kept = omega (arith, a.one_less, inv.permits_kept);
        sockets_counted = omega (arith, a.same_active, inv.sockets_counted);
        users_counted = λ v. omega (arith, a.counted v, inv.users_counted v);
        users_capped = λ v. a.capped v (inv.users_capped v);
      }

  Inv-start :
      {s : System} (xs : List Conn) (u : Option Text) (ys : List Conn)
      → s.conns ≡ xs ++ waiting u ∷ ys
      → Inv permits per_user s
      → Inv permits per_user
          (record { slots = start_socket s.slots; conns = xs ++ running u ∷ ys; lost = s.lost })
  unfolding start_socket
  Inv-start {s} xs u ys h inv = record {
    permits_kept = omega (
      arith,
      ap length h,
      length-middle xs (waiting u) ys,
      length-middle xs (running u) ys,
      inv.permits_kept,
    );
    sockets_counted = omega (
      arith,
      ap sockets h,
      sockets-middle xs (waiting u) ys,
      sockets-middle xs (running u) ys,
      inv.sockets_counted,
    );
    users_counted = λ v. omega (
      arith,
      ap (held v) h,
      held-middle v xs (waiting u) ys,
      held-middle v xs (running u) ys,
      inv.users_counted v,
    );
    users_capped = inv.users_capped;
  }

  Inv-finish :
      {s : System} (xs : List Conn) (u : Option Text) (ys : List Conn)
      → s.conns ≡ xs ++ running u ∷ ys
      → Inv permits per_user s
      → Inv permits per_user
          (record { slots = end_socket u s.slots; conns = xs ++ ys; lost = s.lost })
  unfolding end_socket
  Inv-finish {s} xs u ys h inv = record {
    permits_kept = omega (arith, ap length h, length-middle xs (running u) ys, inv.permits_kept);
    sockets_counted =
        omega (arith, ap sockets h, sockets-middle xs (running u) ys, inv.sockets_counted);
    users_counted = λ v. omega (
      arith,
      ap (held v) h,
      held-middle v xs (running u) ys,
      inv.users_counted v,
      count-end u s.slots v,
    );
    users_capped = λ v. omega (arith, count-end u s.slots v, inv.users_capped v);
  }

  Inv-abandon :
      {s : System} (xs : List Conn) (u : Option Text) (ys : List Conn)
      → s.conns ≡ xs ++ waiting u ∷ ys
      → Inv permits per_user s
      → Inv permits per_user
          (record { slots = abandon_upgrade s.slots; conns = xs ++ ys; lost = u ∷ s.lost })
  unfolding abandon_upgrade
  Inv-abandon {s} xs u ys h inv = record {
    permits_kept = omega (arith, ap length h, length-middle xs (waiting u) ys, inv.permits_kept);
    sockets_counted =
        omega (arith, ap sockets h, sockets-middle xs (waiting u) ys, inv.sockets_counted);
    users_counted =
        λ v. omega (arith, ap (held v) h, held-middle v xs (waiting u) ys, inv.users_counted v);
    users_capped = inv.users_capped;
  }

  Step-Inv : {s t : System} → Step per_user s t → Inv permits per_user s → Inv permits per_user t
  Step-Inv (permit u h) inv = Inv-permit u h inv
  Step-Inv {s} (reject u {e} {t} h) inv = rw (admit-err per_user u s.slots t e h) inv
  Step-Inv (start xs u ys h) inv = Inv-start xs u ys h inv
  Step-Inv (finish xs u ys h) inv = Inv-finish xs u ys h inv
  Step-Inv (abandon xs u ys h) inv = Inv-abandon xs u ys h inv

  Reach-Inv : {s : System} → Reach permits per_user s → Inv permits per_user s
  Reach-Inv initial = Inv-init permits per_user
  Reach-Inv (later r st) = Step-Inv st (Reach-Inv r)

  -- In every state that the server reaches, whatever order requests, starts, ends and abandoned
  -- upgrades come in: no user holds more permits than the limit of a user, no more are given out
  -- than the semaphore has, and the global counter is the number of running sockets.
  pub live_slots_bounded :
      (s : System)
      → Reach permits per_user s
      → ((v : Text) → held v s.conns ≤ per_user)
        × (length s.conns ≤ permits)
        × (s.slots.active ≡ sockets s.conns)
  live_slots_bounded s r =
      let inv = Reach-Inv r in
      (
        λ v. omega (arith, inv.users_counted v, inv.users_capped v),
        omega (arith, inv.permits_kept),
        inv.sockets_counted,
      )

  -- In every state that the server reaches, a user gets a permit exactly if the semaphore has one
  -- left and the user's open connections, counted together with the upgrades of the user that were
  -- ever abandoned, are fewer than the limit. An abandoned upgrade is never forgotten.
  pub live_admission_exact :
      (s : System) (v : Text)
      → Reach permits per_user s
      → ((t : Slots) × (admit per_user (some v) s.slots ≡ (ok tt, t)))
        ↔ ((length s.conns < permits) × (held v s.conns + leaked v s.lost < per_user))
  live_admission_exact s v r =
      let inv = Reach-Inv r in
      (
        λ h.
            let a = (admits per_user v s.slots).0 h in
            (omega (arith, a.0, inv.permits_kept), omega (arith, a.1, inv.users_counted v)),
        λ h.
            (admits per_user v s.slots).1
              (omega (arith, h.0, inv.permits_kept), omega (arith, h.1, inv.users_counted v)),
      )
