-- ===== src/Router/Filter.antt =====
-- src/router.rs: what the breaker's stage keeps.
use xfiles.Prelude.{
  ◌≡◌, inl, inr, refl, sym, ap, ◌∙◌, Bool, false, some, List, subst, [], ◌∷◌, arith, All, Text,
  text_eq, Map, Bool-cases, filter, not, ◌&&◌, ◌==◌, eq_iff, eq_refl, if◌then◌else◌, contains,
}
use xfiles.Prelude.Maps.{get, get-insert}
use xfiles.Prelude.Time.{Nanos}
use xfiles.Message.{Opaque}
use xfiles.Floats.{Floats, Random}
use xfiles.Plumber.{Patterns}
use xfiles.Circuit.{CircuitBreaker, EndpointCircuit, admit, allow, entry}
use xfiles.Ai.Endpoints.{AiEndpoint}
use xfiles.Mcp.{Json}
use xfiles.Router.{retain, is_down}

-- No text stands twice in the list.
abbrev pub AreDistinct : List Text → Type 0
AreDistinct [] = Unit
AreDistinct (id ∷ ids) = All (λ b. (id == b) ≡ false) ids × AreDistinct ids

filter_ext_All :
    {A : Type 0} (p q : A → Bool) (l : List A) → All (λ a. p a ≡ q a) l → filter p l ≡ filter q l
unfolding filter
filter_ext_All p q [] h = refl
filter_ext_All p q (a ∷ l) h = ground (arith, h.0, filter_ext_All p q l h.1)

All-impl : {A : Type 0} (P Q : A → Type 0) (l : List A) → ((a : A) → P a → Q a) → All P l → All Q l
All-impl P Q [] f h = tt
All-impl P Q (a ∷ l) f h = (f a h.0, All-impl P Q l f h.1)

-- The answer for one circuit does not depend on the others.
admit-allow :
    (c : CircuitBreaker) (now : Nanos) (id : Text) (e : EndpointCircuit)
    → admit (allow c now id).0 now e ≡ admit c now e
unfolding admit allow
admit-allow c now id e = ground arith

get-allow :
    (c : CircuitBreaker) (now : Nanos) (id other : Text)
    → (id == other) ≡ false
    → get (allow c now id).0.state other ≡ get c.state other
unfolding allow
get-allow c now id other h = get-insert c.state id other (admit c now (entry c id)).0 ∙ rw h refl

allow_other :
    (c : CircuitBreaker) (now : Nanos) (id other : Text)
    → (id == other) ≡ false
    → admit (allow c now id).0 now (entry (allow c now id).0 other) ≡ admit c now (entry c other)
unfolding entry
allow_other c now id other h =
    admit-allow c now id (entry (allow c now id).0 other) ∙ rw (get-allow c now id other h) refl

state-allow :
    (c : CircuitBreaker) (now : Nanos) (id : Text)
    → get (allow c now id).0.state id ≡ some (admit c now (entry c id)).0
unfolding allow
state-allow c now id = get-insert c.state id id _ ∙ rw (eq_refl id) refl

not_contains :
    (id : Text) (ids : List Text) → All (λ b. (id == b) ≡ false) ids → contains ids id ≡ false
unfolding contains
not_contains id [] h = refl
not_contains id (b ∷ ids) h = ground (arith, not_contains id ids h.1, h.0, eq_iff id b, eq_iff b id)

-- After one candidate was asked for, and then others that differ from it.
state_first :
    (c : CircuitBreaker) (now : Nanos) (a : Text) (ids : List Text) (id : Text)
    → All (λ b. (a == b) ≡ false) ids
    → (if contains ids id
        then get (allow (allow c now a).0 now id).0.state id
        else get (allow c now a).0.state id)
      ≡ (if contains (a ∷ ids) id then get (allow c now id).0.state id else get c.state id)
unfolding contains
state_first c now a ids id h = elim (Bool-cases (a == id)) [
  | inl e ↦
      let same : a ≡ id = (eq_iff a id).0 e in
      rw (e, subst (λ b. contains ids b ≡ false) same (not_contains a ids h))
        (ap (λ b. get (allow c now b).0.state id) same)
  | inr e ↦
      let kept : get (allow (allow c now a).0 now id).0.state id ≡ get (allow c now id).0.state id =
        state-allow (allow c now a).0 now id
        ∙ ap (λ r. some r.0) (allow_other c now a id e)
        ∙ sym (state-allow c now id) in
      rw (e, kept, get-allow c now a id e) refl
]

module _ {x : Opaque} (re : Patterns x) (fl : Floats) (rand : Random fl) (json : Json x) where
  -- Whether an endpoint stays: the breaker lets it through, and it is not offline.
  abbrev pub stays : Map Text (AiEndpoint x) → Nanos → CircuitBreaker → Text → Bool
  stays endpoints now circuit id =
      (allow circuit now id).1 && not (is_down re fl rand json endpoints id)

  stays_other :
      (endpoints : Map Text (AiEndpoint x)) (now : Nanos) (circuit : CircuitBreaker)
      (id other : Text)
      → (id == other) ≡ false
      → stays endpoints now (allow circuit now id).0 other ≡ stays endpoints now circuit other
  unfolding allow
  stays_other endpoints now circuit id other h =
      ap (λ r. r.1 && not (is_down re fl rand json endpoints other))
        (allow_other circuit now id other h)

  breaker-retain :
      (endpoints : Map Text (AiEndpoint x)) (now : Nanos) (circuit : CircuitBreaker) (a : Text)
      (ids : List Text)
      → (retain re fl rand json endpoints now circuit (a ∷ ids)).0
        ≡ (retain re fl rand json endpoints now (allow circuit now a).0 ids).0
  unfolding retain
  breaker-retain endpoints now circuit a ids = ground arith

  -- Of candidates that are all different, those stay that the breaker lets through and that are not
  -- offline, and the others are rejected, both in their order. The breaker is asked for every candidate
  -- once, also for one that is offline, and its other circuits are left alone.
  pub retain_lem :
      (endpoints : Map Text (AiEndpoint x)) (now : Nanos) (circuit : CircuitBreaker)
      (ids : List Text)
      → AreDistinct ids
      → let (circuit', kept, rejected) = retain re fl rand json endpoints now circuit ids in
        (kept ≡ filter (stays endpoints now circuit) ids)
        × (rejected ≡ filter (λ id. not (stays endpoints now circuit id)) ids)
        × ((id : Text)
            → get circuit'.state id ≡ (
                if contains ids id
                then get (allow circuit now id).0.state id
                else get circuit.state id))
  unfolding retain filter contains
  retain_lem endpoints now circuit [] d = (refl, refl, λ id. refl)
  retain_lem endpoints now circuit (a ∷ ids) d =
      let circuit₁ = (allow circuit now a).0 in
      let (k, r, g) = retain_lem endpoints now circuit₁ ids d.1 in
      let same =
        All-impl _ (λ b. stays endpoints now circuit₁ b ≡ stays endpoints now circuit b) ids
          (stays_other endpoints now circuit a) d.0 in
      let k' = k ∙ filter_ext_All _ (stays endpoints now circuit) ids same in
      let r' =
        r
        ∙ filter_ext_All _ (λ b. not (stays endpoints now circuit b)) ids
            (All-impl _ _ ids (λ b e. ap not e) same) in
      (
        ground (arith, k'),
        ground (arith, r'),
        λ id.
            ap (λ c. get c.state id) (breaker-retain endpoints now circuit a ids)
            ∙ g id
            ∙ state_first circuit now a ids id d.0,
      )
