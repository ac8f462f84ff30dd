-- ===== src/Plumber/Order.antt =====
-- src/plumber.rs: in which order the rules stand, and that none is lost.
use mathlib.Core.List.{append_assoc, append-nil}
use xfiles.Prelude.{
  ◌≡◌, refl, sym, ap, ◌∙◌, ◌⊎◌, Bool, true, false, Option, none, some, List, [], ◌∷◌, ◌++◌, arith,
  All, filter, filter-append, All-map, if◌then◌else◌, Option-cases, Bool-cases, inl, inr,
}
use xfiles.Prelude.Ints.{ℤ, ltb_ℤ, beq_ℤ, ltb_ℤ-trans, ltb_ℤ-asymm, ltb_ℤ_of_beq_ℤ}
use xfiles.Message.{Opaque}
use xfiles.Plumber.{
  Patterns, ConfigRule, PlumberRule, Plumber, insert_rule, sort_rules, add_rule, load_from_config,
}

if-append {ℓ} :
    {A : Type ℓ} (b : Bool) (a : A) (l : List A)
    → (if b then a ∷ [] else []) ++ l ≡ (if b then a ∷ l else l)
if-append true a l = refl
if-append false a l = refl

module _ {x : Opaque} (re : Patterns x) where
  -- No rule follows one of lower priority.
  abbrev pub IsSorted : List (PlumberRule re) → Type 0
  IsSorted [] = Unit
  IsSorted (r ∷ rules) = All (λ s. ltb_ℤ r.priority s.priority ≡ false) rules × IsSorted rules

  -- The rules of one priority, in their order.
  abbrev pub of_priority : ℤ → List (PlumberRule re) → List (PlumberRule re)
  of_priority k = filter (λ r. beq_ℤ r.priority k)

  insert_rule-All :
      (k : ℤ) (r : PlumberRule re) (rules : List (PlumberRule re))
      → ltb_ℤ k r.priority ≡ false
      → All (λ s. ltb_ℤ k s.priority ≡ false) rules
      → All (λ s. ltb_ℤ k s.priority ≡ false) (insert_rule re r rules)
  unfolding insert_rule
  insert_rule-All k r [] h a = (h, tt)
  insert_rule-All k r (s ∷ rules) h a = ground (arith, insert_rule-All k r rules h a.1)

  insert_rule-IsSorted :
      (r : PlumberRule re) (rules : List (PlumberRule re))
      → IsSorted rules
      → IsSorted (insert_rule re r rules)
  unfolding insert_rule
  insert_rule-IsSorted r [] s = (tt, tt)
  insert_rule-IsSorted r (q ∷ rules) s = elim (Bool-cases (ltb_ℤ r.priority q.priority)) [
    | inl e ↦ rw e (
      insert_rule-All q.priority r rules (ltb_ℤ-asymm r.priority q.priority e) s.0,
      insert_rule-IsSorted r rules s.1,
    )
    | inr e ↦
        rw e ((e, All-map (λ t h. ltb_ℤ-trans r.priority q.priority t.priority e h) rules s.0), s)
  ]

  pub sort_rules-IsSorted : (rules : List (PlumberRule re)) → IsSorted (sort_rules re rules)
  unfolding sort_rules
  sort_rules-IsSorted [] = tt
  sort_rules-IsSorted (r ∷ rules) =
      insert_rule-IsSorted r (sort_rules re rules) (sort_rules-IsSorted rules)

  of_priority-insert_rule :
      (k : ℤ) (r : PlumberRule re) (rules : List (PlumberRule re))
      → of_priority k (insert_rule re r rules)
        ≡ (if beq_ℤ r.priority k then r ∷ of_priority k rules else of_priority k rules)
  unfolding insert_rule filter
  of_priority-insert_rule k r [] = refl
  of_priority-insert_rule k r (s ∷ rules) =
      ground (arith, ltb_ℤ_of_beq_ℤ r.priority s.priority k, of_priority-insert_rule k r rules)

  of_priority-sort_rules :
      (k : ℤ) (rules : List (PlumberRule re))
      → of_priority k (sort_rules re rules) ≡ of_priority k rules
  unfolding sort_rules filter
  of_priority-sort_rules k [] = refl
  of_priority-sort_rules k (r ∷ rules) =
      of_priority-insert_rule k r (sort_rules re rules)
      ∙ ap (λ l. if beq_ℤ r.priority k then r ∷ l else l) (of_priority-sort_rules k rules)

  -- The rule that a pattern, once compiled, stands for.
  abbrev pub compiled : re.Regex → ConfigRule → PlumberRule re
  compiled regex r = record {
    name = r.name;
    pattern = regex;
    destination = r.destination;
    priority = r.priority;
    header_match = r.header_match;
  }

  abbrev pub add : Plumber re → ConfigRule → Option (Plumber re)
  add p r = add_rule re p r.name r.pattern r.destination r.priority r.header_match

  -- `add_rule` fails exactly where the pattern does not compile. Otherwise the rules stand by falling
  -- priority, and those of each priority are the old ones in their old order, with the new rule behind
  -- them if it has that priority.
  pub add_rule_lem :
      (p : Plumber re) (r : ConfigRule)
      → ((re.compile r.pattern ≡ none) × (add p r ≡ none))
        ⊎ ((regex : re.Regex) × (q : Plumber re) × (re.compile r.pattern ≡ some regex)
            × (add p r ≡ some q)
            × IsSorted q.rules
            × ((k : ℤ)
                → of_priority k q.rules
                  ≡ of_priority k p.rules
                    ++ (if beq_ℤ r.priority k then compiled regex r ∷ [] else [])))
  unfolding add_rule filter
  add_rule_lem p r = elim (Option-cases (re.compile r.pattern)) [
    | inl e ↦ inl (e, rw (e, add_rule))
    | inr (regex, e) ↦
        let all = p.rules ++ compiled regex r ∷ [] in
        inr (
          regex,
          record { rules = sort_rules re all },
          e,
          rw (e, add_rule),
          sort_rules-IsSorted all,
          λ k. of_priority-sort_rules k all ∙ filter-append _ p.rules (compiled regex r ∷ []),
        )
  ]

  -- The compiled rules of a configuration, up to the first bad pattern.
  pub compile_all : List ConfigRule → List (PlumberRule re)
  compile_all [] = []
  compile_all (r ∷ rs) = elim (re.compile r.pattern) [
    | none ↦ []
    | some regex ↦ compiled regex r ∷ compile_all rs
  ]

  pub all_compile : List ConfigRule → Bool
  all_compile [] = true
  all_compile (r ∷ rs) = elim (re.compile r.pattern) [ none ↦ false | some _ ↦ all_compile rs ]

  -- `load_from_config` succeeds exactly where every pattern compiles, and else stops at the first that
  -- does not and keeps the rules before it. In both cases, if the rules stood by falling priority they
  -- still do, and those of one priority are the old ones and behind them the loaded ones, in the
  -- order of the configuration.
  pub load_from_config_lem :
      (p : Plumber re) (rs : List ConfigRule)
      → IsSorted p.rules
      → let (q, loaded) = load_from_config re p rs in
        (loaded ≡ all_compile rs)
        × IsSorted q.rules
        × ((k : ℤ)
            → of_priority k q.rules ≡ of_priority k p.rules ++ of_priority k (compile_all rs))
  unfolding load_from_config all_compile compile_all filter
  load_from_config_lem p [] s = (refl, s, λ k. sym (append-nil (of_priority k p.rules)))
  load_from_config_lem p (r ∷ rs) s = elim (add_rule_lem p r) [
    | inl (e, f) ↦
        rw (e, f, load_from_config, all_compile, compile_all)
          (refl, s, λ k. sym (append-nil (of_priority k p.rules)))
    | inr (regex, q, e, f, t, g) ↦
        let ih = load_from_config_lem q rs t in
        rw (e, f, load_from_config, all_compile, compile_all)
          (
            ih.0,
            ih.1,
            λ k.
                ih.2 k
                ∙ ap (λ l. l ++ of_priority k (compile_all rs)) (g k)
                ∙ append_assoc (of_priority k p.rules) _ _
                ∙ ap (λ l. of_priority k p.rules ++ l)
                    (if-append (beq_ℤ r.priority k) (compiled regex r)
                      (of_priority k (compile_all rs))),
          )
  ]
