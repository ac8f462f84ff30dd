-- ===== src/Quantum/State.antt =====
-- src/quantum/state.rs: what is kept for each endpoint of each conversation. The clock is the argument
-- `now`, and floating-point numbers are an interface. The table of a conversation is shared by its
-- copies, so that a change of one is a change of the entry.
use xfiles.Prelude.{
  ℕ, ◌+◌, ◌%◌, ◌^◌, Option, none, some, List, [], ◌∷◌, map, length, is_empty, ltb, if◌then◌else◌,
  Text, text_eq, nat_eq, Map,
}
use xfiles.Prelude.Maps.{get, insert, remove_where, map_values}
use xfiles.Prelude.Ints.{ℤ, ltb_ℤ}
use xfiles.Prelude.Time.{Nanos, num_seconds}
use xfiles.Message.{Uuid}
use xfiles.Floats.{Floats}

-- The sum of the numbers, from the left, from -0.0 or 0.0.
module _ (fl : Floats) where
  open fl use {F64, dec, of_nat, pi, add, sub, mul, div, sqrt, sin, cos, atan2, clamp, lt}

  abbrev pub sum_from : F64 → List F64 → F64
  sum_from s [] = s
  sum_from s (p ∷ ps) = sum_from (add s p) ps

  abbrev pub total : List (Text × F64) → F64
  total d = sum_from (dec 0 0) (map (λ e. e.1) d)

  -- Each number divided by the sum, where the sum is positive.
  unfoldable pub renormalize : List (Text × F64) → List (Text × F64)
  renormalize d = if lt (dec 0 0) (total d) then map (λ e. (e.0, div e.1 (total d))) d else d

  pub record Amplitude : Type 0 where
    pub real : F64
    pub imag : F64

  abbrev pub probability : Amplitude → F64
  probability a = add (mul a.real a.real) (mul a.imag a.imag)

  abbrev pub magnitude : Amplitude → F64
  magnitude a = sqrt (probability a)

  abbrev pub phase : Amplitude → F64
  phase a = atan2 a.imag a.real

  pub record EndpointState : Type 0 where
    pub amplitude : Amplitude
    pub pulls : ℕ
    pub total_reward : F64
    pub last_updated : Nanos

  abbrev pub default_state : Nanos → EndpointState
  default_state now = record {
    amplitude = record { real = dec 1 0; imag = dec 0 0 };
    pulls = 0;
    total_reward = dec 0 0;
    last_updated = now;
  }

  pub record ConversationState : Type 0 where
    pub conversation_id : Uuid
    pub endpoint_states : Map Text EndpointState
    pub created_at : Nanos
    pub last_active : Nanos

  abbrev pub new_conversation : Uuid → Nanos → ConversationState
  new_conversation id now = record {
    conversation_id = id;
    endpoint_states = [];
    created_at = now;
    last_active = now;
  }

  abbrev pub or_state : Nanos → Option EndpointState → EndpointState
  or_state now none = default_state now
  or_state now (some s) = s

  -- The entry, made where it is missing, and its value.
  unfoldable pub get_or_insert :
      ConversationState → Nanos → Text → ConversationState × EndpointState
  get_or_insert c now endpoint_id =
      let s = or_state now (get c.endpoint_states endpoint_id) in
      (record c { endpoint_states = insert c.endpoint_states endpoint_id s }, s)

  -- The entry of an endpoint after a reward.
  unfoldable pub rewarded : Nanos → F64 → EndpointState → EndpointState
  rewarded now reward s =
      let pulls = (s.pulls + 1) % 2 ^ 64 in
      let total_reward = add s.total_reward reward in
      let avg_reward = div total_reward (of_nat pulls) in
      let target_mag = clamp (sqrt avg_reward) (dec 0 0) (dec 1 0) in
      let phase_shift = mul (sub reward (dec 5 1)) pi in
      let new_phase = add (phase s.amplitude) (mul phase_shift (dec 1 1)) in
      record {
        amplitude = record {
          real = mul target_mag (cos new_phase);
          imag = mul target_mag (sin new_phase);
        };
        pulls = pulls;
        total_reward = total_reward;
        last_updated = now;
      }

  unfoldable pub apply_decoherence : ConversationState → F64 → ConversationState
  apply_decoherence c rate =
      let uniform_mag = div (dec 1 0) (sqrt (of_nat (length c.endpoint_states))) in
      let decay : EndpointState → EndpointState = λ s. record s {
        amplitude = record {
          real = add (mul s.amplitude.real (sub (dec 1 0) rate)) (mul uniform_mag rate);
          imag = mul s.amplitude.imag (sub (dec 1 0) rate);
        };
      } in
      if is_empty c.endpoint_states
      then c
      else record c { endpoint_states = map_values decay c.endpoint_states }

  unfoldable pub update : ConversationState → Nanos → Text → F64 → F64 → ConversationState
  unfolding rewarded apply_decoherence
  update c now endpoint_id reward decoherence_rate =
      let s = or_state now (get c.endpoint_states endpoint_id) in
      apply_decoherence
        (record c {
          endpoint_states = insert c.endpoint_states endpoint_id (rewarded now reward s);
          last_active = now;
        })
        decoherence_rate

  unfoldable pub compute_distribution : ConversationState → List (Text × F64)
  unfolding renormalize
  compute_distribution c =
      renormalize (map (λ e. (e.0, probability e.1.amplitude)) c.endpoint_states)

  pub record QuantumStateManager : Type 0 where
    pub conversations : Map Uuid ConversationState

  abbrev pub or_conversation : Uuid → Nanos → Option ConversationState → ConversationState
  or_conversation id now none = new_conversation id now
  or_conversation id now (some c) = c

  -- The manager with the entry, and the entry.
  unfoldable pub get_or_create :
      QuantumStateManager → Nanos → Uuid → QuantumStateManager × ConversationState
  get_or_create m now id =
      let c = or_conversation id now (get m.conversations id) in
      (record m { conversations = insert m.conversations id c }, c)

  -- `QuantumStateManager::update`
  unfoldable pub update_conversation :
      QuantumStateManager → Nanos → Uuid → Text → F64 → F64 → QuantumStateManager
  unfolding get_or_create update
  update_conversation m now id endpoint_id reward decoherence_rate =
      let (m', c) = get_or_create m now id in
      record m' {
        conversations =
            insert m'.conversations id (update c now endpoint_id reward decoherence_rate);
      }

  unfoldable pub prune_old : QuantumStateManager → Nanos → ℤ → QuantumStateManager
  prune_old m now max_age_secs = record m {
    conversations =
        remove_where (λ e. ltb_ℤ max_age_secs (num_seconds now e.1.last_active)) m.conversations;
  }

  abbrev pub conversation_count : QuantumStateManager → ℕ
  conversation_count m = length m.conversations

  -- An endpoint, its probability, its pulls and its average reward.
  unfoldable pub endpoint_diagnostics : ConversationState → List (Text × F64 × ℕ × F64)
  endpoint_diagnostics c =
      map
        (λ e. (
          e.0,
          probability e.1.amplitude,
          e.1.pulls,
          if ltb 0 e.1.pulls then div e.1.total_reward (of_nat e.1.pulls) else dec 0 0,
        ))
        c.endpoint_states

  unfoldable pub all_diagnostics : QuantumStateManager → List (Uuid × List (Text × F64 × ℕ × F64))
  unfolding endpoint_diagnostics
  all_diagnostics m = map (λ e. (e.0, endpoint_diagnostics e.1)) m.conversations
