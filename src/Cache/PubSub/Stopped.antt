-- ===== src/Cache/PubSub/Stopped.antt =====
-- backend/cache/src/pubsub.rs: a subscriber that has stopped is never started again.
use fullstackhex.Base.{◌≡◌, refl, Text, Option, none, some, Result, ok, err, ap, ◌∙◌}
use fullstackhex.Cache.PubSub.{
  SharedSubscriber, get_or_init, answer, await_ready, Step, call, connects, receives, returns,
  Steps, stay, later, stopped,
}

-- What stays as it was.
record Same (h k : SharedSubscriber) : Type 0 where
  pub task : k.task ≡ stopped
  pub sent : k.sent ≡ h.sent
  pub ready : k.ready ≡ h.ready

Same-answer :
    (io_error : Text → Text) (channel : Text) (h k : SharedSubscriber)
    (ready : Option (Result Text (Unit {0})))
    → Same h k
    → Same h (answer io_error channel k ready).1
unfolding answer
Same-answer io_error channel h k none i = i
Same-answer io_error channel h k (some (err e)) i = i
Same-answer io_error channel h k (some (ok u)) i = record {
  task = i.task;
  sent = i.sent;
  ready = i.ready;
}

module _ (io_error : Text → Text) (prefix : Text) where
  Same-Step :
      (h : SharedSubscriber) {k l : SharedSubscriber}
      → Step io_error prefix k l
      → Same h k
      → Same h l
  unfolding get_or_init await_ready
  Same-Step h (call channel) i = i
  Same-Step h (connects init subscribed s) i = absurd (cc (s, i.task))
  Same-Step h (receives e s) i = absurd (cc (s, i.task))
  Same-Step h {k} (returns channel) i = Same-answer io_error channel h k k.ready i

  Same-Steps :
      (h : SharedSubscriber) {k : SharedSubscriber}
      → h.task ≡ stopped
      → Steps io_error prefix h k
      → Same h k
  Same-Steps h s stay = record { task = s; sent = refl; ready = refl }
  Same-Steps h s (later ss t) = Same-Step h t (Same-Steps h s ss)

  -- Once the task has stopped, nothing is sent any more, and every later subscription of the process
  -- gets the answer that it would have got at once.
  pub stopped_for_good :
      (h k : SharedSubscriber) (channel : Text)
      → h.task ≡ stopped
      → Steps io_error prefix h k
      → (k.sent ≡ h.sent)
        × ((await_ready io_error channel k).0 ≡ (await_ready io_error channel h).0)
  unfolding await_ready answer
  stopped_for_good h k channel s ss =
      let i = Same-Steps h s ss in
      (i.sent, ap (λ r. (answer io_error channel k r).0) i.ready ∙ same_answer h.ready)
    where
      same_answer :
          (ready : Option (Result Text (Unit {0})))
          → (answer io_error channel k ready).0 ≡ (answer io_error channel h ready).0
      same_answer none = refl
      same_answer (some (err e)) = refl
      same_answer (some (ok u)) = refl
