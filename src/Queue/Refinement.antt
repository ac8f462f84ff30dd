-- ===== src/Queue/Refinement.antt =====
-- src/queue.rs against an abstract specification: for each agent one list of messages, to which messages
-- are added behind, from which a front is delivered, and in which what is too old is dropped.
use mathlib.Core.List.{append_assoc, append-nil}
use xfiles.Prelude.{
  ℕ, ◌+◌, ◌≡◌, refl, sym, ap, ◌∙◌, false, List, [], ◌∷◌, ◌++◌, arith, ltb, filter, if◌then◌else◌,
  ◌==◌, Text, text_eq, inl, inr, Bool-cases, Option-cases,
}
use xfiles.Prelude.Maps.{get}
use xfiles.Prelude.Ints.{pos}
use xfiles.Prelude.Time.{Nanos, from_secs}
use xfiles.Message.{Opaque, Message, ProtocolOp, message}
use xfiles.Channel.{Channels}
use xfiles.Queue.{
  QueuedMessage, MessageQueue, or_empty, waiting, enqueue, drain, drain_to, prune_old,
}
use xfiles.Queue.Delivery.{ops, waiting-enqueue, store_left}
use xfiles.Queue.Pruning.{
  IsClean, waiting-prune_old, enqueue-IsClean, drain_to-IsClean, prune_old-IsClean,
}

module _ {x : Opaque} (ch : Channels (ProtocolOp x)) where
  open ch use {Sender, Net, send, sent, sent-send_ok, send_err, same_channel, sent-send_other}

  -- What the program does with the queue: it adds a message, drains an agent's queue into a channel, and
  -- prunes what is no less than an hour old.
  pub data Act : Type 0 where
    adds : Nanos → Text → Message x → Act
    drains : Text → Sender → Act
    prunes : Nanos → Act

  unfoldable pub act : MessageQueue x × Net → Act → MessageQueue x × Net
  act (q, n) (adds now id msg) = (enqueue q now id msg, n)
  act (q, n) (drains id tx) = let (q', n', delivered) = drain_to ch q n id tx in (q', n')
  act (q, n) (prunes now) = (prune_old q now (pos 3600), n)

  unfoldable pub act_all : MessageQueue x × Net → List Act → MessageQueue x × Net
  unfolding act
  act_all s [] = s
  act_all s (a ∷ acts) = act_all (act s a) acts

  -- The abstract state.
  abbrev pub Mailboxes : Type 0
  Mailboxes = Text → List (QueuedMessage x)

  -- The steps that the specification allows.
  pub data Allows (m : Mailboxes) (n : Net) : Act → Mailboxes → Net → Type 0 where
    added :
        (now : Nanos) (id : Text) (msg : Message x) (m' : Mailboxes)
        → ((j : Text)
            → m' j ≡ (
                if id == j
                then m j ++ record { msg = msg; enqueued_at = now; retries = 0 } ∷ []
                else m j))
        → Allows m n (adds now id msg) m' n
    delivered :
        (id : Text) (tx : Sender) (front : List (QueuedMessage x)) (m' : Mailboxes) (n' : Net)
        → m id ≡ front ++ m' id
        → ((j : Text) → (id == j) ≡ false → m' j ≡ m j)
        → sent n' tx ≡ sent n tx ++ ops front
        → ((t : Sender) → same_channel tx t ≡ false → sent n' t ≡ sent n t)
        → Allows m n (drains id tx) m' n'
    dropped :
        (now : Nanos) (m' : Mailboxes)
        → ((j : Text) → m' j ≡ filter (λ qm. ltb now (qm.enqueued_at + from_secs 3600)) (m j))
        → Allows m n (prunes now) m' n

  pub data AllowsAll : Mailboxes → Net → List Act → Mailboxes → Net → Type 0 where
    done : (m : Mailboxes) (n : Net) → AllowsAll m n [] m n
    then_by :
        (a : Act) (acts : List Act) (m m₁ m₂ : Mailboxes) (n n₁ n₂ : Net)
        → Allows m n a m₁ n₁
        → AllowsAll m₁ n₁ acts m₂ n₂
        → AllowsAll m n (a ∷ acts) m₂ n₂

  -- The part that the loop delivers.
  record Front (n : Net) (tx : Sender) (entry : List (QueuedMessage x))
      (r : Net × List (QueuedMessage x)) : Type 0 where
    front : List (QueuedMessage x)
    parted : entry ≡ front ++ r.1
    given : sent r.0 tx ≡ sent n tx ++ ops front
    others : (t : Sender) → same_channel tx t ≡ false → sent r.0 t ≡ sent n t

  drain-Front :
      (n : Net) (tx : Sender) (k : ℕ) (entry : List (QueuedMessage x))
      → let r = drain ch n tx k entry in Front n tx entry (r.0, r.1)
  unfolding drain
  drain-Front n tx k [] = record {
    front = [];
    parted = refl;
    given = sym (append-nil (sent n tx));
    others = λ t h. refl;
  }
  drain-Front n tx k (qm ∷ entry) = elim (Bool-cases (send n tx (message qm.msg)).1) [
    | inl e ↦
        let f = drain-Front (send n tx (message qm.msg)).0 tx (k + 1) entry in
        rw e (record {
          front = qm ∷ f.front;
          parted = ap (λ l. qm ∷ l) f.parted;
          given =
              f.given
              ∙ ap (λ l. l ++ ops f.front) (sent-send_ok n tx (message qm.msg) e)
              ∙ append_assoc (sent n tx) (message qm.msg ∷ []) (ops f.front);
          others = λ t h. f.others t h ∙ sent-send_other n tx t (message qm.msg) h;
        })
    | inr e ↦ rw e (record {
      front = [];
      parted = refl;
      given = ap (λ m. sent m tx) (send_err n tx (message qm.msg) e) ∙ sym (append-nil (sent n tx));
      others = λ t h. ap (λ m. sent m t) (send_err n tx (message qm.msg) e);
    })
  ]

  drain_to-Allows :
      (q : MessageQueue x) (n : Net) (id : Text) (tx : Sender)
      → let r = act (q, n) (drains id tx) in Allows (waiting q) n (drains id tx) (waiting r.0) r.1
  unfolding act drain_to waiting
  drain_to-Allows q n id tx = elim (Option-cases (get q.queues id)) [
    | inl e ↦
        rw (e, drain_to)
          (delivered id tx [] (waiting q) n refl (λ j h. refl) (sym (append-nil (sent n tx)))
            (λ t h. refl))
    | inr (entry, e) ↦
        let f = drain-Front n tx 0 entry in
        let left = (drain ch n tx 0 entry).1 in
        let stored = store_left ch q id left in
        rw (e, drain_to)
          (delivered id tx f.front _ (drain ch n tx 0 entry).0
            (ap or_empty e ∙ f.parted ∙ ap (λ l. f.front ++ l) (sym (stored id).0))
            (λ j h. ap or_empty {y = get q.queues j} ((stored j).2 ∙ rw h refl)) f.given f.others)
  ]

  act-Allows :
      (q : MessageQueue x) (n : Net) (a : Act)
      → IsClean q
      → let r = act (q, n) a in Allows (waiting q) n a (waiting r.0) r.1
  unfolding act
  act-Allows q n (adds now id msg) c = added now id msg _ (λ j. waiting-enqueue q now id j msg)
  act-Allows q n (drains id tx) c = drain_to-Allows q n id tx
  act-Allows q n (prunes now) c =
      dropped now _ (λ j. waiting-prune_old q now 3600 j c (omega arith))

  act-IsClean : (q : MessageQueue x) (n : Net) (a : Act) → IsClean q → IsClean (act (q, n) a).0
  unfolding act
  act-IsClean q n (adds now id msg) c = enqueue-IsClean q now id msg c
  act-IsClean q n (drains id tx) c = drain_to-IsClean ch q n id tx c
  act-IsClean q n (prunes now) c = prune_old-IsClean q now (pos 3600) c

  -- The queue implements its specification: whatever is done with it, from a clean table on, each step
  -- is one that the specification allows on the lists of the messages that wait for each agent and on
  -- what the channels were given.
  pub act_all-AllowsAll :
      (q : MessageQueue x) (n : Net) (acts : List Act)
      → IsClean q
      → let r = act_all (q, n) acts in AllowsAll (waiting q) n acts (waiting r.0) r.1
  unfolding act_all
  act_all-AllowsAll q n [] c = done (waiting q) n
  act_all-AllowsAll q n (a ∷ acts) c =
      let r = act (q, n) a in
      then_by a acts (waiting q) (waiting r.0) (waiting (act_all r acts).0) n r.1 (act_all r acts).1
        (act-Allows q n a c) (act_all-AllowsAll r.0 r.1 acts (act-IsClean q n a c))
