-- ===== src/Plumber/Routes.antt =====
-- src/plumber.rs: where a message goes.
use mathlib.Core.List.{append_assoc, append-nil}
use xfiles.Prelude.{
  ◌≡◌, refl, sym, subst, ap, ◌∙◌, ◌⊎◌, ◌↔◌, inl, inr, true, false, Option, none, some, List, [],
  ◌∷◌, ◌++◌, map, arith, All, filter, In, In-filter, In-map, In-of_map, All-filter_of, first,
  is_empty, if◌then◌else◌, eq_iff, eq_refl, Text, text_eq, Map, Option-cases, Bool-cases,
}
use xfiles.Prelude.Maps.{get}
use xfiles.Prelude.Ints.{ltb_ℤ, ltb_ℤ-irrefl}
use xfiles.Message.{Opaque, Message}
use xfiles.Plumber.{
  Patterns, PlumberRule, Plumber, proc_log, haystack, headers_match, matches, push_matching, route,
}
use xfiles.Plumber.Order.{IsSorted}

module _ {x : Opaque} (re : Patterns x) where
  headers_match_iff :
      (headers constraints : Map Text Text)
      → (headers_match re headers constraints ≡ true)
        ↔ All (λ c. get headers c.0 ≡ some c.1) constraints
  unfolding headers_match
  headers_match_iff headers [] = (λ h. tt, λ h. refl)
  headers_match_iff headers ((key, value) ∷ constraints) =
      let ih = headers_match_iff headers constraints in
      (
        λ h. elim (Option-cases (get headers key)) [
          | inl e ↦ absurd (ground arith)
          | inr (v, e) ↦ (ground (arith, eq_iff v value), ih.0 (ground arith))
        ],
        λ h. rw (h.0, headers_match) (rw (eq_refl value) (ih.1 h.1)),
      )

  push_matching_lem :
      (msg : Message x) (rules : List (PlumberRule re)) (out : List Text)
      → push_matching re msg rules out
        ≡ out ++ map (λ r. r.destination) (filter (λ r. matches re r msg) rules)
  unfolding push_matching filter
  push_matching_lem msg [] out = sym (append-nil out)
  push_matching_lem msg (r ∷ rules) out = elim (Bool-cases (matches re r msg)) [
    | inl e ↦ rw e (
        push_matching_lem msg rules (out ++ r.destination ∷ [])
        ∙ append_assoc out (r.destination ∷ []) _)
    | inr e ↦ rw e (push_matching_lem msg rules out)
  ]

  -- What the header constraints of a rule ask of a message.
  abbrev pub HeadersMet : Option (Map Text Text) → Map Text Text → Type 0
  HeadersMet none headers = Unit
  HeadersMet (some constraints) headers = All (λ c. get headers c.0 ≡ some c.1) constraints

  -- A rule matches a message exactly where its pattern matches the message's canonical text and each
  -- header that the rule names has the value that it names.
  pub matches_iff :
      (r : PlumberRule re) (msg : Message x)
      → (matches re r msg ≡ true)
        ↔ ((re.is_match r.pattern (haystack re msg) ≡ true) × HeadersMet r.header_match msg.headers)
  unfolding matches
  matches_iff r msg = elim (Option-cases r.header_match) [
    | inl e ↦ rw e (λ h. (ground arith, tt), λ h. ground arith)
    | inr (cs, e) ↦
        let hs = headers_match_iff msg.headers cs in
        rw e (λ h. (ground arith, hs.0 (ground arith)), λ h. ground (arith, hs.1 h.1))
  ]

  abbrev pub matching : Message x → List (PlumberRule re) → List (PlumberRule re)
  matching msg = filter (λ r. matches re r msg)

  route-matching :
      (p : Plumber re) (msg : Message x)
      → route re p msg ≡ (
          let ds = map (λ r. r.destination) (matching msg p.rules) in
          if is_empty ds then proc_log ∷ [] else ds)
  unfolding route
  route-matching p msg = rw (push_matching_lem msg p.rules [])

  abbrev pub Destination : Plumber re → Message x → Text → Type 0
  Destination p msg d =
      ((r : PlumberRule re) × In r p.rules × (matches re r msg ≡ true) × (d ≡ r.destination))
      ⊎ (All (λ r. matches re r msg ≡ false) p.rules × (d ≡ proc_log))

  abbrev or_log : List Text → List Text
  or_log ds = if is_empty ds then proc_log ∷ [] else ds

  In-or_log : (d : Text) (ds : List Text) → In d ds → In d (or_log ds)
  In-or_log d [] h = absurd h
  In-or_log d (c ∷ ds) h = h

  matching_none :
      (msg : Message x) (rules : List (PlumberRule re))
      → All (λ r. matches re r msg ≡ false) rules
      → matching msg rules ≡ []
  unfolding filter
  matching_none msg [] h = refl
  matching_none msg (r ∷ rules) h = ground (arith, matching_none msg rules h.1)

  none_matching :
      (msg : Message x) (rules : List (PlumberRule re))
      → matching msg rules ≡ []
      → All (λ r. matches re r msg ≡ false) rules
  unfolding filter
  none_matching msg [] h = tt
  none_matching msg (r ∷ rules) h = ground (arith, none_matching msg rules)

  -- The destinations of a message are those of the rules that match it, and `/proc/log` alone where no
  -- rule does.
  pub In-route :
      (p : Plumber re) (msg : Message x) (d : Text) → In d (route re p msg) ↔ Destination p msg d
  In-route p msg d = (
    λ h. destination_of (matching msg p.rules) refl (subst (In d) (route-matching p msg) h),
    λ h. subst (In d) (sym (route-matching p msg)) (destination_in h),
  )
    where
      destination_of :
          (l : List (PlumberRule re))
          → matching msg p.rules ≡ l
          → In d (or_log (map (λ r. r.destination) l))
          → Destination p msg d
      destination_of [] e (inl q) = inr (none_matching msg p.rules e, q)
      destination_of [] e (inr h) = absurd h
      destination_of (r ∷ rs) e h =
          let (a, q, i) = In-of_map (λ r. r.destination) d (r ∷ rs) h in
          let j = (In-filter (λ r. matches re r msg) a p.rules).0 (subst (In a) (sym e) i) in
          inl (a, j.0, j.1, q)

      destination_in :
          Destination p msg d → In d (or_log (map (λ r. r.destination) (matching msg p.rules)))
      destination_in (inl (r, i, m, q)) = rw q (
          In-or_log r.destination _ (
            In-map (λ r. r.destination) r (matching msg p.rules)
              ((In-filter (λ r. matches re r msg) r p.rules).1 (i, m))))
      destination_in (inr (unmatched, q)) = rw (matching_none msg p.rules unmatched) (inl q)

  first_matching :
      (msg : Message x) (rules : List (PlumberRule re)) (r : PlumberRule re)
      (rs : List (PlumberRule re))
      → IsSorted re rules
      → matching msg rules ≡ r ∷ rs
      → All (λ s. ltb_ℤ r.priority s.priority ≡ false) (matching msg rules)
  unfolding filter
  first_matching msg [] r rs h e = tt
  first_matching msg (q ∷ rules) r rs h e = elim (Bool-cases (matches re q msg)) [
    | inl k ↦
        let same : q ≡ r = ground arith in
        rw k (
          subst (λ t. All (λ s. ltb_ℤ t.priority s.priority ≡ false) (q ∷ matching msg rules)) same
            (ltb_ℤ-irrefl q.priority, All-filter_of _ (λ s. matches re s msg) rules h.0))
    | inr k ↦ rw k (first_matching msg rules r rs h.1 (ground arith))
  ]

  -- If the rules stand by falling priority, the first destination of a message is that of a matching
  -- rule whose priority no matching rule exceeds; where no rule matches, `/proc/log` is the only one.
  pub route-first :
      (p : Plumber re) (msg : Message x)
      → IsSorted re p.rules
      → (All (λ r. matches re r msg ≡ false) p.rules × (route re p msg ≡ proc_log ∷ []))
        ⊎ ((r : PlumberRule re) × In r p.rules
            × (matches re r msg ≡ true)
            × (first (route re p msg) ≡ some r.destination)
            × All (λ s. ltb_ℤ r.priority s.priority ≡ false) (matching msg p.rules))
  route-first p msg h = go (matching msg p.rules) refl
    where
      go :
          (l : List (PlumberRule re))
          → matching msg p.rules ≡ l
          → (All (λ r. matches re r msg ≡ false) p.rules × (route re p msg ≡ proc_log ∷ []))
            ⊎ ((r : PlumberRule re) × In r p.rules
                × (matches re r msg ≡ true)
                × (first (route re p msg) ≡ some r.destination)
                × All (λ s. ltb_ℤ r.priority s.priority ≡ false) (matching msg p.rules))
      go [] e = inl (
        none_matching msg p.rules e,
        route-matching p msg ∙ ap (λ l. or_log (map (λ r. r.destination) l)) e,
      )
      go (r ∷ rs) e =
          let j =
            (In-filter (λ r. matches re r msg) r p.rules).0 (subst (In r) (sym e) (inl refl)) in
          inr (
            r,
            j.0,
            j.1,
            ap first (route-matching p msg ∙ ap (λ l. or_log (map (λ r. r.destination) l)) e),
            first_matching msg p.rules r rs h e,
          )
