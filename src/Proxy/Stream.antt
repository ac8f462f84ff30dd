-- ===== src/Proxy/Stream.antt =====
-- src/proxy.rs: what the wrapper of a streamed answer observes.
use xfiles.Prelude.{
  ℕ, ◌≡◌, refl, ap, ◌∙◌, Bool, true, false, Option, none, some, List, [], ◌∷◌, if◌then◌else◌,
}
use xfiles.Prelude.Time.{Nanos}
use xfiles.Floats.{Floats, Random}
use xfiles.Quantum.Router.{QuantumRouter}
use xfiles.Proxy.{
  ObservingStream, Poll, pending, chunk, failed, finished, poll_next, observe_end, observe_in,
}

-- The end of the stream or its first error, with the time, the latency and whether it is a success.
abbrev pub outcome : Bool → List (Nanos × ℕ × Poll) → Option (Nanos × ℕ × Bool)
outcome success [] = none
outcome success ((now, latency_ms, finished) ∷ polls) = some (now, latency_ms, success)
outcome success ((now, latency_ms, failed error) ∷ polls) = some (now, latency_ms, false)
outcome success ((now, latency_ms, chunk bytes) ∷ polls) = outcome success polls
outcome success ((now, latency_ms, pending) ∷ polls) = outcome success polls

if_true : {A : Type 0} (b : Bool) (a c : A) → b ≡ true → (if b then a else c) ≡ a
if_true b a c h = rw h refl

module _ (fl : Floats) (rand : Random fl) where
  unfoldable pub poll_all :
      Option (QuantumRouter fl)
      → ObservingStream
      → List (Nanos × ℕ × Poll)
      → Option (QuantumRouter fl) × ObservingStream
  unfolding poll_next
  poll_all q s [] = (q, s)
  poll_all q s ((now, latency_ms, poll) ∷ polls) =
      let (q', s') = poll_next fl rand q now latency_ms s poll in poll_all q' s' polls

  abbrev pub observe_outcome :
      Option (QuantumRouter fl)
      → ObservingStream
      → Option (Nanos × ℕ × Bool)
      → Option (QuantumRouter fl) × ObservingStream
  observe_outcome q s none = (q, s)
  observe_outcome q s (some (now, latency_ms, success)) = (
    observe_in fl rand q now s.conversation_id s.endpoint_id success latency_ms,
    record s { observed = true },
  )

  observe_end-observed :
      (q : Option (QuantumRouter fl)) (now : Nanos) (l : ℕ) (s : ObservingStream) (success : Bool)
      → s.observed ≡ true
      → observe_end fl rand q now l s success ≡ (q, s)
  unfolding observe_end
  observe_end-observed q now l s success h = if_true s.observed (q, s) _ h

  poll_all-observed :
      (q : Option (QuantumRouter fl)) (s : ObservingStream) (polls : List (Nanos × ℕ × Poll))
      → s.observed ≡ true
      → poll_all q s polls ≡ (q, s)
  unfolding poll_all poll_next observe_end
  poll_all-observed q s [] h = refl
  poll_all-observed q s ((now, l, finished) ∷ polls) h =
      ap (λ p. poll_all p.0 p.1 polls) (observe_end-observed q now l s s.success h)
      ∙ poll_all-observed q s polls h
  poll_all-observed q s ((now, l, failed e) ∷ polls) h =
      ap (λ p. poll_all p.0 p.1 polls) (observe_end-observed q now l s false h)
      ∙ poll_all-observed q s polls h
  poll_all-observed q s ((now, l, chunk b) ∷ polls) h = poll_all-observed q s polls h
  poll_all-observed q s ((now, l, pending) ∷ polls) h = poll_all-observed q s polls h

  -- However a streamed answer is polled, also after its end, the quantum router observes it once at
  -- most: at its first error, as a failure, or at its end, with the success that its status said; and it
  -- observes nothing as long as the stream goes on. The wrapper is new.
  pub poll_all_lem :
      (q : Option (QuantumRouter fl)) (s : ObservingStream) (polls : List (Nanos × ℕ × Poll))
      → s.observed ≡ false
      → poll_all q s polls ≡ observe_outcome q s (outcome s.success polls)
  unfolding poll_all poll_next observe_end
  poll_all_lem q s [] h = refl
  poll_all_lem q s ((now, l, finished) ∷ polls) h =
      rw (h, observe_end) (poll_all-observed _ (record s { observed = true }) polls refl)
  poll_all_lem q s ((now, l, failed e) ∷ polls) h =
      rw (h, observe_end) (poll_all-observed _ (record s { observed = true }) polls refl)
  poll_all_lem q s ((now, l, chunk b) ∷ polls) h = poll_all_lem q s polls h
  poll_all_lem q s ((now, l, pending) ∷ polls) h = poll_all_lem q s polls h
