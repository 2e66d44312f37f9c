-- ===== src/Api/Live/Release.antt =====
-- backend/api/src/live.rs: a socket's slots after its end.
use fullstackhex.Base.{
  arith, ℕ, ◌+◌, ◌-◌, ◌≡◌, Bool, Text, List, Option, some, Result, ok, err, refl, Option-cases, inl,
  inr, opt_text_eq, ap, ◌∙◌,
}
use fullstackhex.Domain.Errors.{CacheError}
use fullstackhex.Api.Live.{Slots, admit, start_socket, end_socket, count_of}
use fullstackhex.Api.Live.Loop.{Event, Trace, event_loop, handle_socket, release}
use fullstackhex.Api.Live.Capacity.{admit-ok, count-end, bit}

release-left :
    (user : Option Text) (s : Slots) (t : Trace) (closing : Bool)
    → t.left ≡ some closing
    → release user s t ≡ (t, end_socket user s)
release-left user s t closing h = rw h refl

-- Releasing does not change the trace.
left-of :
    (user : Option Text) (s : Slots) (t : Trace) (closing : Bool)
    → (release user s t).0.left ≡ some closing
    → t.left ≡ some closing
left-of user s t closing h = elim (Option-cases t.left) [
  | inl e ↦ e ∙ cc (rw e at h)
  | inr (b, e) ↦ e ∙ cc (rw e at h)
]

handle-left :
    (subscribed : Result CacheError (Unit {0})) (events : List Event) (user : Option Text)
    (s : Slots) (closing : Bool)
    → (handle_socket subscribed events user s).0.left ≡ some closing
    → (handle_socket subscribed events user s).1 ≡ end_socket user (start_socket s)
unfolding handle_socket
handle-left (err e) events user s closing h = refl
handle-left (ok u) events user s closing h =
    ap (λ r. r.1)
      (release-left user (start_socket s) (event_loop events) closing
        (left-of user (start_socket s) (event_loop events) closing h))

ended-start :
    (user : Option Text) (s : Slots)
    → ((end_socket user (start_socket s)).free ≡ s.free + 1)
      × ((end_socket user (start_socket s)).active ≡ s.active)
      × ((v : Text)
          → count_of ((end_socket user (start_socket s)).users v)
            ≡ count_of (s.users v) - bit (opt_text_eq user v))
unfolding end_socket start_socket
ended-start user s = (refl, omega arith, λ v. count-end user s v)

-- A socket that was permitted and has ended, whether its subscription failed or its loop was left,
-- gives everything back: the free permits, the counter and every user's count are what they were
-- before the request.
pub live_slot_returned :
    (per_user : ℕ) (user : Option Text) (s t : Slots) (subscribed : Result CacheError (Unit {0}))
    (events : List Event) (closing : Bool)
    → admit per_user user s ≡ (ok tt, t)
    → (handle_socket subscribed events user t).0.left ≡ some closing
    → ((handle_socket subscribed events user t).1.free ≡ s.free)
      × ((handle_socket subscribed events user t).1.active ≡ s.active)
      × ((v : Text)
          → count_of ((handle_socket subscribed events user t).1.users v) ≡ count_of (s.users v))
live_slot_returned per_user user s t subscribed events closing h left =
    let a = admit-ok per_user user s t h in
    let e = handle-left subscribed events user t closing left in
    let back = ended-start user t in
    (
      omega (arith, ap (λ x. x.free) e, back.0, a.one_less),
      omega (arith, ap (λ x. x.active) e, back.1, a.same_active),
      λ v. omega (arith, ap (λ x. count_of (x.users v)) e, back.2 v, a.counted v),
    )
