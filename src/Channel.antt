-- ===== src/Channel.antt =====
-- The unbounded channels of tokio, by which the hub hands an operation to the task that writes to an
-- agent's socket. They are not part of the repository: an interface with their documented laws.
use xfiles.Prelude.{◌≡◌, Bool, true, false, List, [], ◌∷◌, ◌++◌}

-- `send` fails when the receiver is gone, and then gives the value back; otherwise the value stands
-- behind those sent before.
pub record Channels (Op : Type 0) : Type 1 where
  pub Sender : Type 0
  pub Net : Type 0
  pub send : Net → Sender → Op → Net × Bool
  pub same_channel : Sender → Sender → Bool
  pub sent : Net → Sender → List Op
  pub sent-send_ok :
      (n : Net) (s : Sender) (o : Op)
      → (send n s o).1 ≡ true
      → sent (send n s o).0 s ≡ sent n s ++ o ∷ []
  pub send_err : (n : Net) (s : Sender) (o : Op) → (send n s o).1 ≡ false → (send n s o).0 ≡ n
  pub sent-send_other :
      (n : Net) (s t : Sender) (o : Op)
      → same_channel s t ≡ false
      → sent (send n s o).0 t ≡ sent n t
