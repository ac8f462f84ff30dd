-- ===== src/Quantum/Router/Choice.antt =====
-- src/quantum/router.rs: which destination `route` gives, and what `tick` forgets.
use xfiles.Prelude.{
  ℕ, zero, suc, ◌<◌, ◌≡◌, ◌⊎◌, inl, inr, refl, sym, ap, ◌∙◌, subst, Option, none, some, List, [],
  ◌∷◌, map, length, arith, In, get_elem?, if◌then◌else◌, ◌==◌, Text, text_eq, nat_eq, Bool-cases,
  Option-cases,
}
use xfiles.Prelude.Maps.{get, get-insert}
use xfiles.Prelude.Time.{Nanos}
use xfiles.Message.{Opaque, Uuid, Message}
use xfiles.Floats.{Floats, Random}
use xfiles.Quantum.State.{renormalize, total, get_or_insert, ConversationState}
use xfiles.Quantum.Entanglement.{apply_entanglement, EntanglementTable}
use xfiles.Quantum.Router.{
  QuantumRouter, distribute, explore, exploit, select, weigh, remember, route_conversation, route,
}

-- The texts of a distribution.
abbrev names : {A : Type 0} → List (Text × A) → List Text
names d = map (λ e. e.0) d

length-map : {A B : Type 0} (f : A → B) (l : List A) → length (map f l) ≡ length l
length-map f [] = refl
length-map f (a ∷ l) = omega (arith, length-map f l)

names-map :
    {A B : Type 0} (f : Text × A → B) (d : List (Text × A))
    → names (map (λ e. (e.0, f e)) d) ≡ names d
names-map f [] = refl
names-map f (e ∷ d) = ap (λ l. e.0 ∷ l) (names-map f d)

get_elem?-In :
    {A : Type 0} (l : List A) (i : ℕ) → i < length l → (a : A) × (get_elem? l i ≡ some a) × In a l
get_elem?-In [] i h = absurd (omega arith)
get_elem?-In (a ∷ l) zero h = (a, refl, inl refl)
get_elem?-In (a ∷ l) (suc i) h = let (b, e, j) = get_elem?-In l i (omega arith) in (b, e, inr j)

module _ (fl : Floats) where
  names-distribute :
      (conv : ConversationState fl) (now : Nanos) (n : ℕ) (cs : List Text)
      → names (distribute fl conv now n cs).1 ≡ cs
  unfolding distribute
  names-distribute conv now n [] = refl
  names-distribute conv now n (c ∷ cs) =
      ap (λ l. c ∷ l) (names-distribute (get_or_insert fl conv now c).0 now n cs)

  names-renormalize : (d : List (Text × fl.F64)) → names (renormalize fl d) ≡ names d
  unfolding renormalize
  names-renormalize d = elim (Bool-cases (fl.lt (fl.dec 0 0) (total fl d))) [
    | inl e ↦ rw (e, renormalize) (names-map _ d)
    | inr e ↦ rw (e, renormalize) refl
  ]

  names-apply_entanglement :
      (t : EntanglementTable fl) (id : Uuid) (prev : Option Text) (d : List (Text × fl.F64))
      (strength : fl.F64)
      → names (apply_entanglement fl t id prev d strength) ≡ names d
  unfolding apply_entanglement
  names-apply_entanglement t id none d strength = refl
  names-apply_entanglement t id (some p) d strength = names-renormalize _ ∙ names-map _ d

  module _ (rand : Random fl) where
    names-weigh :
        (q : QuantumRouter fl) (now : Nanos) (id : Uuid) (cs : List Text)
        → names (weigh fl rand q now id cs).1 ≡ cs
    unfolding weigh
    names-weigh q now id cs =
        names-apply_entanglement _ id _ _ _ ∙ names-renormalize _ ∙ names-distribute _ now _ cs

    explore-In :
        (cs : List Text) (g : rand.Rng)
        → 0 < length cs
        → (c : Text) × (explore fl rand cs g ≡ some c) × In c cs
    unfolding explore
    explore-In cs g h = get_elem?-In cs _ (rand.choose_lt g (length cs) h)

    exploit-In :
        (cs : List Text) (d : List (Text × fl.F64)) (g : rand.Rng)
        → 0 < length cs
        → names d ≡ cs
        → (c : Text) × (exploit fl rand cs d g ≡ some c) × In c cs
    unfolding exploit
    exploit-In cs d g h e = elim (Option-cases (rand.weighted_index (map (λ e. e.1) d))) [
      | inl w ↦ rw (w, exploit) (explore-In cs g h)
      | inr (dist, w) ↦
          rw (w, exploit)
            (subst
              (λ l. (c : Text) × (get_elem? (names d) (rand.sample dist g).0 ≡ some c) × In c l) e
              (get_elem?-In (names d) (rand.sample dist g).0 (
                subst (λ n. (rand.sample dist g).0 < n)
                  (length-map (λ e. e.1) d ∙ sym (length-map (λ e. e.0) d))
                  (rand.sample_lt _ dist g w))))
    ]

    select-In :
        (rate : fl.F64) (cs : List Text) (d : List (Text × fl.F64)) (g : rand.Rng)
        → 0 < length cs
        → names d ≡ cs
        → (c : Text) × (select fl rand rate cs d g ≡ some c) × In c cs
    unfolding select
    select-In rate cs d g h e = elim (Bool-cases (fl.lt (rand.gen g).0 rate)) [
      | inl l ↦ rw (l, select) (explore-In cs (rand.gen g).1 h)
      | inr l ↦ rw (l, select) (exploit-In cs d (rand.gen g).1 h e)
    ]

    -- Whatever the weights and the random numbers, `route` gives one of the candidates and remembers it
    -- for the message's conversation; where there is no candidate it gives none and changes nothing.
    pub route_lem :
        {x : Opaque} (q : QuantumRouter fl) (now : Nanos) (g : rand.Rng) (msg : Message x)
        (cs : List Text)
        → ((cs ≡ []) × (route fl rand q now g msg cs ≡ (q, none)))
          ⊎ ((c : Text) × (q' : QuantumRouter fl) × (route fl rand q now g msg cs ≡ (q', some c))
              × In c cs
              × ((id : Uuid)
                  → get q'.last_endpoint id
                    ≡ (if msg.conversation_id == id then some c else get q.last_endpoint id)))
    unfolding route route_conversation remember
    route_lem q now g msg [] = inl (refl, refl)
    route_lem q now g msg (c₀ ∷ cs₀) =
        let cs = c₀ ∷ cs₀ in
        let id = msg.conversation_id in
        let w = weigh fl rand q now id cs in
        let (c, e, i) =
          select-In q.config.exploration_rate cs w.1 g (omega arith) (names-weigh q now id cs) in
        inr (
          c,
          remember fl rand w.0 id (some c),
          rw e refl,
          i,
          λ j. get-insert q.last_endpoint id j c,
        )
