-- ===== src/Transport/Frames.antt =====
-- src/net/transport.rs: the frames that leave the registry of agents alone.
use xfiles.Prelude.{ℕ, ◌≡◌, inl, inr, refl, Option, none, some, List, Text, text_eq, Option-cases}
use xfiles.Message.{Opaque, Message, ProtocolOp}
use xfiles.Channel.{Channels}
use xfiles.Floats.{Floats, Random}
use xfiles.Agent.{get as get_agent}
use xfiles.Plumber.{Patterns}
use xfiles.Vfs.Vnode.{Utf8}
use xfiles.Vfs.Registry.{get_node, write}
use xfiles.Transport.{
  Hub, Moment, target_agent, deliver, deliver_to, send_to, handle_fs_read, handle_fs_write,
}

module _ {x : Opaque} (re : Patterns x) (fl : Floats) (rand : Random fl)
    (ch : Channels (ProtocolOp x)) (u : Utf8) where
  agents-deliver_to :
      (h : Hub re fl rand ch u) (t : Moment re fl rand ch u) (id : Text) (msg : Message x)
      → (deliver_to re fl rand ch u h t id msg).agents ≡ h.agents
  unfolding deliver_to send_to
  agents-deliver_to h t id msg = elim (Option-cases (get_agent h.agents id)) [
    | inl e ↦ rw (e, deliver_to) refl
    | inr (target, e) ↦ rw (e, deliver_to) (sent target.tx)
  ]
    where
      sent : (tx : Option ch.Sender) → (send_to re fl rand ch u h tx msg).agents ≡ h.agents
      sent none = refl
      sent (some tx) = refl

  pub agents-deliver :
      (h : Hub re fl rand ch u) (t : Moment re fl rand ch u) (dest : Option Text) (msg : Message x)
      → (deliver re fl rand ch u h t dest msg).agents ≡ h.agents
  unfolding deliver
  agents-deliver h t none msg = refl
  agents-deliver h t (some dest) msg = elim (Option-cases (target_agent dest)) [
    | inl e ↦ rw (e, deliver) refl
    | inr (id, e) ↦ rw (e, deliver) (agents-deliver_to h t id msg)
  ]

  pub agents-handle_fs_read :
      (h : Hub re fl rand ch u) (tx : ch.Sender) (path : Text)
      → (handle_fs_read re fl rand ch u h tx path).agents ≡ h.agents
  unfolding handle_fs_read
  agents-handle_fs_read h tx path = elim (Option-cases (get_node h.vfs path)) [
    | inl e ↦ rw (e, handle_fs_read) refl
    | inr (node, e) ↦ rw (e, handle_fs_read) refl
  ]

  pub agents-handle_fs_write :
      (h : Hub re fl rand ch u) (tx : ch.Sender) (path : Text) (bytes : List ℕ)
      → (handle_fs_write re fl rand ch u h tx path bytes).agents ≡ h.agents
  unfolding handle_fs_write
  agents-handle_fs_write h tx path bytes = elim (Option-cases (write u h.vfs path bytes)) [
    | inl e ↦ rw (e, handle_fs_write) refl
    | inr (r, e) ↦ rw (e, handle_fs_write) refl
  ]
