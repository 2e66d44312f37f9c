-- ===== src/Cache/PubSub/Stream.antt =====
-- backend/cache/src/pubsub.rs: what the receivers get.
use mathlib.Core.List.{append_assoc, map-append}
use fullstackhex.Base.{
  ◌≡◌, ◌∙◌, refl, ap, sym, Text, codes, List, [], ◌∷◌, ◌++◌, map, Option, none, some, Result, ok,
  err, append-nil, subst,
}
use fullstackhex.Cache.Client.{make_key}
use fullstackhex.Cache.PubSub.{
  PubSubMessage, Received, message, broken, Inbox, SharedSubscriber, get_or_init, connect,
  payload_of, pass, run_stream, answer, send, receive, await_ready, Step, call, connects, receives,
  returns, Steps, stay, later,
}

abbrev pub with_all : List PubSubMessage → List Inbox → List Inbox
with_all ms = map (λ b. record { asked = b.asked; got = ms ++ b.got })

with_all-none : (bs : List Inbox) → with_all [] bs ≡ bs
with_all-none [] = refl
with_all-none (b ∷ bs) = ap (λ x. b ∷ x) (with_all-none bs)

with_all-send :
    (m : PubSubMessage) (ms : List PubSubMessage) (bs : List Inbox)
    → with_all ms (map (λ b. record { asked = b.asked; got = m ∷ b.got }) bs)
      ≡ with_all (ms ++ (m ∷ [])) bs
with_all-send m ms [] = refl
with_all-send m ms (b ∷ bs) = rw (append_assoc ms (m ∷ []) b.got, with_all-send m ms bs) refl

-- What became of a state: the messages sent since, the newest first, which every inbox of that state
-- got, and the inboxes made since.
record Since (h k : SharedSubscriber) : Type 0 where
  pub new : List PubSubMessage
  pub more : List Inbox
  pub same_channel : k.channel ≡ h.channel
  pub all_sent : k.sent ≡ new ++ h.sent
  pub all_got : k.inboxes ≡ more ++ with_all new h.inboxes

with_all-cons :
    (m : PubSubMessage) (ms : List PubSubMessage) (bs : List Inbox)
    → map (λ b. record { asked = b.asked; got = m ∷ b.got }) (with_all ms bs) ≡ with_all (m ∷ ms) bs
with_all-cons m ms [] = refl
with_all-cons m ms (b ∷ bs) =
    ap (λ x. record { asked = b.asked; got = m ∷ (ms ++ b.got) } ∷ x) (with_all-cons m ms bs)

Since-pass :
    {h : SharedSubscriber} (c : Text) (payload : Option Text) (k : SharedSubscriber)
    → Since h k
    → Since h (pass c payload k)
unfolding pass send
Since-pass c none k i = i
Since-pass {h} c (some t) k i =
    let m : PubSubMessage = record { channel = c; payload = t } in
    record {
      new = m ∷ i.new;
      more = with_all (m ∷ []) i.more;
      same_channel = i.same_channel;
      all_sent = ap (λ x. m ∷ x) i.all_sent;
      all_got =
          ap (with_all (m ∷ [])) i.all_got
          ∙ (map-append _ i.more (with_all i.new h.inboxes)
              ∙ ap (λ x. with_all (m ∷ []) i.more ++ x) (with_all-cons m i.new h.inboxes));
    }

Since-receive :
    {h : SharedSubscriber} (e : Received) (k : SharedSubscriber) → Since h k → Since h (receive e k)
unfolding receive
Since-receive (broken e) k i = record {
  new = i.new;
  more = i.more;
  same_channel = i.same_channel;
  all_sent = i.all_sent;
  all_got = i.all_got;
}
Since-receive (message c t lossy) k i = Since-pass c (payload_of t lossy) k i

Since-connect :
    {h : SharedSubscriber} (init subscribed : Result Text (Unit {0})) (k : SharedSubscriber)
    → Since h k
    → Since h (connect init subscribed k)
unfolding connect
Since-connect (err e) subscribed k i = record {
  new = i.new;
  more = i.more;
  same_channel = i.same_channel;
  all_sent = i.all_sent;
  all_got = i.all_got;
}
Since-connect (ok u) (err e) k i = record {
  new = i.new;
  more = i.more;
  same_channel = i.same_channel;
  all_sent = i.all_sent;
  all_got = i.all_got;
}
Since-connect (ok u) (ok v) k i = record {
  new = i.new;
  more = i.more;
  same_channel = i.same_channel;
  all_sent = i.all_sent;
  all_got = i.all_got;
}

Since-answer :
    {h : SharedSubscriber} (io_error : Text → Text) (channel : Text) (k : SharedSubscriber)
    (ready : Option (Result Text (Unit {0})))
    → Since h k
    → Since h (answer io_error channel k ready).1
unfolding answer
Since-answer io_error channel k none i = i
Since-answer io_error channel k (some (err e)) i = i
Since-answer io_error channel k (some (ok u)) i = record {
  new = i.new;
  more = record { asked = channel; got = [] } ∷ i.more;
  same_channel = i.same_channel;
  all_sent = i.all_sent;
  all_got = ap (λ x. record { asked = channel; got = [] } ∷ x) i.all_got;
}

module _ (io_error : Text → Text) (prefix : Text) where
  Since-Step : {h k l : SharedSubscriber} → Step io_error prefix k l → Since h k → Since h l
  unfolding get_or_init await_ready
  Since-Step (call channel) i = i
  Since-Step {k = k} (connects init subscribed s) i = Since-connect init subscribed k i
  Since-Step {k = k} (receives e s) i = Since-receive e k i
  Since-Step {k = k} (returns channel) i = Since-answer io_error channel k k.ready i

  Since-Steps : {h k : SharedSubscriber} → Steps io_error prefix h k → Since h k
  Since-Steps {h} stay = record {
    new = [];
    more = [];
    same_channel = refl;
    all_sent = refl;
    all_got = sym (with_all-none h.inboxes);
  }
  Since-Steps (later ss s) = Since-Step s (Since-Steps ss)

  answer-ok :
      (channel : Text) (ready : Option (Result Text (Unit {0}))) (h k : SharedSubscriber)
      → answer io_error channel h ready ≡ (ok tt, k)
      → k ≡ record h { inboxes = record { asked = channel; got = [] } ∷ h.inboxes }
  unfolding answer
  answer-ok channel none h k e = absurd (cc e)
  answer-ok channel (some (err x)) h k e = absurd (cc e)
  answer-ok channel (some (ok u)) h k e = sym (ap (λ x. x.1) e)

  -- All receivers of a process read one stream, that of the channel of its first subscription:
  -- after a subscription that succeeds, in every state that is reached from there, its receiver,
  -- whatever channel it asked for, has got exactly what was sent since, in the same order, and so has
  -- every receiver that there was before.
  pub one_stream :
      (first channel : Text) (h i k : SharedSubscriber)
      → Steps io_error prefix (get_or_init prefix first none) h
      → await_ready io_error channel h ≡ (ok tt, i)
      → Steps io_error prefix i k
      → (new : List PubSubMessage) × (more : List Inbox) × (k.channel
          ≡ make_key prefix (codes "pubsub") first)
        × (k.sent ≡ new ++ h.sent)
        × (k.inboxes ≡ more ++ (record { asked = channel; got = new } ∷ with_all new h.inboxes))
  unfolding get_or_init await_ready
  one_stream first channel h i k before e ss =
      let made = answer-ok channel h.ready h i e in
      let s = Since-Steps before in
      let t : Since (record h { inboxes = record { asked = channel; got = [] } ∷ h.inboxes }) k =
        subst (λ x. Since x k) made (Since-Steps ss) in
      (
        t.new,
        t.more,
        t.same_channel ∙ s.same_channel,
        t.all_sent,
        t.all_got
            ∙ ap (λ x. t.more ++ (record { asked = channel; got = x } ∷ with_all t.new h.inboxes))
                (append-nil t.new),
      )

-- What a run of the stream sends, the newest first: the messages with a text, up to the first error.
unfoldable pub sent_of : List Received → List PubSubMessage
sent_of [] = []
sent_of (broken e ∷ es) = []
sent_of (message c t l ∷ es) =
    let rest = sent_of es in
    elim (payload_of t l) [
      | none ↦ rest
      | some p ↦ rest ++ (record { channel = c; payload = p } ∷ [])
    ]

-- While the task runs, whatever the stream yields is sent to every receiver that there is: each inbox
-- gets all the messages that have a text, in order, up to the first error.
pub stream_delivered :
    (es : List Received) (h : SharedSubscriber)
    → (run_stream es h).inboxes ≡ with_all (sent_of es) h.inboxes
unfolding run_stream sent_of receive pass send
stream_delivered [] h = sym (with_all-none h.inboxes)
stream_delivered (broken e ∷ es) h = sym (with_all-none h.inboxes)
stream_delivered (message c t l ∷ es) h = next (payload_of t l) (stream_delivered es)
  where
    next :
        (o : Option Text)
        → ((k : SharedSubscriber) → (run_stream es k).inboxes ≡ with_all (sent_of es) k.inboxes)
        → (run_stream es (pass c o h)).inboxes
          ≡ with_all
              (elim o [
                | none ↦ sent_of es
                | some p ↦ sent_of es ++ (record { channel = c; payload = p } ∷ [])
              ])
              h.inboxes
    next none ih = ih h
    next (some p) ih =
        let m : PubSubMessage = record { channel = c; payload = p } in
        ih (send m h) ∙ with_all-send m (sent_of es) h.inboxes
