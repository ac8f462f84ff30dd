-- ===== src/Tests/Samples.antt =====
-- Concrete stand-ins for what other packages give.
use xfiles.Prelude.{
  ℕ, ◌≢◌, refl, Bool, true, false, none, some, List, [], ◌∷◌, ◌++◌, if◌then◌else◌, Text, text_eq,
  codes, is_empty,
}
use xfiles.Message.{Opaque, Message, ProtocolOp}
use xfiles.Channel.{Channels}
use xfiles.Plumber.{Patterns}
use xfiles.Prelude.Texts.{starts_with}
use xfiles.Vfs.Vnode.{Utf8}

abbrev pub opaque : Opaque
opaque = record { Value = Text; F64 = ℕ; F32 = ℕ }

pub true_ne_false : ◌≢◌ {A = Bool} true false
true_ne_false h = cc

-- One channel, with its receiver alive.
abbrev pub live_channel : Channels (ProtocolOp opaque)
live_channel = record {
  Sender = Unit {0};
  Net = List (ProtocolOp opaque);
  send = λ n s o. (n ++ o ∷ [], true);
  same_channel = λ s t. true;
  sent = λ n s. n;
  sent-send_ok = λ n s o h. refl;
  send_err = λ n s o h. absurd (true_ne_false h);
  sent-send_other = λ n s t o h. absurd (true_ne_false h);
}

-- A pattern is a prefix that a message's text must have, and the empty one does not compile.
abbrev pub prefixes : Patterns opaque
prefixes = record {
  Regex = Text;
  compile = λ p. if is_empty p then none else some p;
  is_match = starts_with;
  display = λ v. v;
}

-- ASCII
abbrev pub ascii : Utf8
ascii = record { as_bytes = λ t. t; from_utf8_lossy = λ b. b; from_utf8_lossy-as_bytes = λ t. refl }

abbrev pub sample : Message opaque
sample = record {
  id = 1;
  parent_id = none;
  conversation_id = 7;
  timestamp = 0;
  sender = codes "alpha";
  sender_ns = codes "/net/alpha";
  path = codes "/ai";
  msg_type = codes "llm_request";
  payload = codes "null";
  headers = (codes "env", codes "prod") ∷ [];
  quantum = none;
}
