-- ===== src/Quantum/Entanglement.antt =====
-- src/quantum/entanglement.rs: the correlations of pairs of endpoints in a conversation. The clock is
-- the argument `now`, and floating-point numbers are an interface.
pub mod Pairs
use xfiles.Prelude.{
  ℕ, Bool, true, false, Option, none, some, List, [], ◌∷◌, map, if◌then◌else◌, Text, text_eq,
  nat_eq, pair_eq, Map,
}
use xfiles.Prelude.Maps.{get, insert, remove_where}
use xfiles.Prelude.Texts.{text_ltb}
use xfiles.Prelude.Ints.{ℤ, ltb_ℤ}
use xfiles.Prelude.Time.{Nanos, num_seconds}
use xfiles.Message.{Uuid}
use xfiles.Floats.{Floats}
use xfiles.Quantum.State.{renormalize}

-- `str` compares bytes of UTF-8, which is the order of the code points.
abbrev pub ordered_key : Text → Text → Text × Text
ordered_key a b = if text_ltb a b then (a, b) else (b, a)

module _ (fl : Floats) where
  open fl use {F64, dec, add, mul}

  pub record ConversationCorrelations : Type 0 where
    pub map : Map (Text × Text) F64
    pub last_active : Nanos

  pub record EntanglementTable : Type 0 where
    pub correlations : Map Uuid ConversationCorrelations

  abbrev pub map_of : Option ConversationCorrelations → Map (Text × Text) F64
  map_of none = []
  map_of (some c) = c.map

  abbrev pub or_zero : Option F64 → F64
  or_zero none = dec 0 0
  or_zero (some f) = f

  -- `*entry * 0.9 + reward * 0.1`
  abbrev pub moving_average : F64 → F64 → F64
  moving_average old reward = add (mul old (dec 9 1)) (mul reward (dec 1 1))

  unfoldable pub record_pair :
      EntanglementTable → Nanos → Uuid → Text → Text → F64 → EntanglementTable
  record_pair t now id a b reward =
      let m = map_of (get t.correlations id) in
      let key = ordered_key a b in
      record t {
        correlations = insert t.correlations id (record {
          map = insert m key (moving_average (or_zero (get m key)) reward);
          last_active = now;
        });
      }

  unfoldable pub get_correlation : EntanglementTable → Uuid → Text → Text → F64
  get_correlation t id a b = or_zero (get (map_of (get t.correlations id)) (ordered_key a b))

  unfoldable pub apply_entanglement :
      EntanglementTable → Uuid → Option Text → List (Text × F64) → F64 → List (Text × F64)
  unfolding get_correlation renormalize
  apply_entanglement t id none distribution strength = distribution
  apply_entanglement t id (some prev) distribution strength = renormalize fl (
      map (λ e. (e.0, mul e.1 (add (dec 1 0) (mul (get_correlation t id prev e.0) strength))))
        distribution)

  unfoldable pub prune_old : EntanglementTable → Nanos → ℤ → EntanglementTable
  prune_old t now max_age_secs = record t {
    correlations =
        remove_where (λ e. ltb_ℤ max_age_secs (num_seconds now e.1.last_active)) t.correlations;
  }
