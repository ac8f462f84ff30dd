-- ===== src/Tests/Queue.antt =====
-- src/queue.rs on a small table.
use xfiles.Prelude.{◌≡◌, refl, [], ◌∷◌, arith, Text, text_eq, codes}
use xfiles.Prelude.Maps.{get, insert}
use xfiles.Prelude.Texts.{text_beq}
use xfiles.Prelude.Time.{from_secs}
use xfiles.Queue.{MessageQueue, QueuedMessage, new, waiting, enqueue}
use xfiles.Queue.Pruning.{IsClean}
use xfiles.Tests.Samples.{opaque, sample}

abbrev bob : Text
bob = codes "bob"

abbrev first_mail : QueuedMessage opaque
first_mail = record { msg = sample; enqueued_at = from_secs 10; retries = 0 }

abbrev second_mail : QueuedMessage opaque
second_mail = record { msg = record sample { id = 2 }; enqueued_at = from_secs 3700; retries = 0 }

abbrev pub mailbox : MessageQueue opaque
mailbox = record { queues = (bob, first_mail ∷ second_mail ∷ []) ∷ [] }

pub mailbox-IsClean : IsClean mailbox
unfolding get
mailbox-IsClean = record { distinct = (refl, tt); nonempty = λ id. ground arith }

waits :
    waiting (enqueue (enqueue (new {x = opaque}) 5 bob sample) 6 bob sample) bob
    ≡ record { msg = sample; enqueued_at = 5; retries = 0 }
      ∷ record { msg = sample; enqueued_at = 6; retries = 0 }
      ∷ []
unfolding waiting enqueue new get insert text_beq
waits = refl
