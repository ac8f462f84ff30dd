-- ===== src/System/Endpoints.antt =====
-- src/ai and src/docker.rs: the table of endpoints holds each endpoint under its id.
use mathlib.Core.Option
use xfiles.Prelude.{
  ℕ, ◌⊎◌, inl, inr, ◌≡◌, refl, sym, ◌∙◌, Bool, Option, none, some, List, [], ◌∷◌, ◌++◌, arith, All,
  if◌then◌else◌, ◌==◌, eq_iff, Text, text_eq, codes, Map, Option-cases, Bool-cases,
}
use xfiles.Prelude.Maps.{
  get, insert, modify, remove_where, IsMap, get-insert, get-modify, get-remove_where, insert-IsMap,
  modify-IsMap, remove_where-IsMap,
}
use xfiles.Prelude.Ints.{ℤ}
use xfiles.Prelude.Texts.{trim_end_slashes}
use xfiles.Prelude.Time.{Nanos}
use xfiles.Message.{Opaque}
use xfiles.Ai.Endpoints.{AiEndpoint, ConfigEndpoint, from_config}
use xfiles.Ai.Probe.{Answer, judge, probe_targets, prune_offline}
use xfiles.Discovery.{add_found, local, identify_service, found_at, prune_stale, scan}
use xfiles.Discovery.Scans.{get-add_found, add_found-IsMap}
use xfiles.Docker.{
  Container, found_in, prune_stale as prune_containers, scan as scan_containers, or_value,
}
use xfiles.Daemon.Startup.{add_endpoints}

none_ne_some : {A : Type 0} (a : A) → ¬ (none ≡ some a)
none_ne_some a h = cc

module _ {x : Opaque} where
  pub record IsTable (m : Map Text (AiEndpoint x)) : Type 0 where
    pub distinct : IsMap m
    pub keyed : (id : Text) (e : AiEndpoint x) → get m id ≡ some e → e.id ≡ id

  insert-IsTable :
      (m : Map Text (AiEndpoint x)) (ep : AiEndpoint x) → IsTable m → IsTable (insert m ep.id ep)
  insert-IsTable m ep h = record {
    distinct = insert-IsMap m ep.id ep h.distinct;
    keyed = λ id e g. elim (Bool-cases (ep.id == id)) [
      | inl q ↦ ground (arith, get-insert m ep.id id ep, eq_iff ep.id id, q, g)
      | inr q ↦ h.keyed id e (ground (arith, get-insert m ep.id id ep, q, g))
    ];
  }

  remove_where-IsTable :
      (p : Text × AiEndpoint x → Bool) (m : Map Text (AiEndpoint x))
      → IsTable m
      → IsTable (remove_where p m)
  remove_where-IsTable p m h = record {
    distinct = remove_where-IsMap p m h.distinct;
    keyed = λ id e g. h.keyed id e (ground (arith, get-remove_where p m id h.distinct, g));
  }

  add_found-IsTable :
      (m found : Map Text (AiEndpoint x))
      → IsTable m
      → ((id : Text) (e : AiEndpoint x) → get found id ≡ some e → e.id ≡ id)
      → IsTable (add_found m found)
  add_found-IsTable m found h k = record {
    distinct = add_found-IsMap m found h.distinct;
    keyed = λ id e g. elim (Option-cases (get m id)) [
      | inl q ↦ k id e (ground (arith, get-add_found m found id, q, g))
      | inr (e', q) ↦ h.keyed id e (ground (arith, get-add_found m found id, q, g))
    ];
  }

  get-head :
      (ep : AiEndpoint x) (m : Map Text (AiEndpoint x)) (id : Text) (e : AiEndpoint x)
      → ((id : Text) (e : AiEndpoint x) → get m id ≡ some e → e.id ≡ id)
      → get ((ep.id, ep) ∷ m) id ≡ some e
      → e.id ≡ id
  unfolding get
  get-head ep m id e k g = elim (Bool-cases (ep.id == id)) [
    | inl q ↦ ground (arith, eq_iff ep.id id, q, g)
    | inr q ↦ k id e (ground (arith, q, g))
  ]

  found_at-keyed :
      (one : x.F64) (fetch : Text → Option ℕ) (now : Nanos) (ports : List ℕ) (id : Text)
      (e : AiEndpoint x)
      → get (found_at one fetch now ports) id ≡ some e
      → e.id ≡ id
  unfolding found_at get
  found_at-keyed one fetch now [] id e g = absurd (none_ne_some e g)
  found_at-keyed one fetch now (port ∷ ports) id e g =
      elim (Option-cases (identify_service fetch (local port))) [
        | inl q ↦ found_at-keyed one fetch now ports id e (rw (q, found_at) at g)
        | inr (service, q) ↦
            get-head _ (found_at one fetch now ports) id e (found_at-keyed one fetch now ports)
              (rw (q, found_at) at g)
      ]

  found_in-keyed :
      (one : x.F64) (now : Nanos) (containers : List Container) (id : Text) (e : AiEndpoint x)
      → get (found_in one now containers) id ≡ some e
      → e.id ≡ id
  unfolding found_in get
  found_in-keyed one now [] id e g = absurd (none_ne_some e g)
  found_in-keyed one now (c ∷ containers) id e g =
      elim (Option-cases (get (or_value [] c.labels) (codes "ai.xfiles.service"))) [
        | inl q ↦ found_in-keyed one now containers id e (rw (q, found_in) at g)
        | inr (name, q) ↦
            get-head _ (found_in one now containers) id e (found_in-keyed one now containers)
              (rw (q, found_in) at g)
      ]

  pub scan-IsTable :
      (one : x.F64) (fetch : Text → Option ℕ) (m : Map Text (AiEndpoint x)) (now : Nanos)
      (ports : List ℕ)
      → IsTable m
      → IsTable (scan one fetch m now ports)
  unfolding scan prune_stale
  scan-IsTable one fetch m now ports h =
      remove_where-IsTable _ _ (add_found-IsTable m _ h (found_at-keyed one fetch now ports))

  pub scan_containers-IsTable :
      (one : x.F64) (m : Map Text (AiEndpoint x)) (now : Nanos) (listed : Text ⊎ List Container)
      → IsTable m
      → IsTable (scan_containers one m now listed)
  unfolding scan_containers prune_containers
  scan_containers-IsTable one m now (inl error) h = h
  scan_containers-IsTable one m now (inr containers) h =
      remove_where-IsTable _ _ (add_found-IsTable m _ h (found_in-keyed one now containers))

  pub prune_offline-IsTable :
      (m : Map Text (AiEndpoint x)) (now : Nanos) (age : ℤ)
      → IsTable m
      → IsTable (prune_offline m now age).0
  unfolding prune_offline
  prune_offline-IsTable m now age h = remove_where-IsTable _ m h

  modify-IsTable :
      (m : Map Text (AiEndpoint x)) (j : Text) (f : AiEndpoint x → AiEndpoint x)
      → ((e : AiEndpoint x) → (f e).id ≡ e.id)
      → IsTable m
      → IsTable (modify m j f)
  modify-IsTable m j f same h = record {
    distinct = modify-IsMap m j f h.distinct;
    keyed = λ id e g. changed id e (Option-cases (get m id)) (sym (get-modify m j id f) ∙ g);
  }
    where
      changed :
          (id : Text) (e : AiEndpoint x)
          → (get m id ≡ none) ⊎ ((e' : AiEndpoint x) × (get m id ≡ some e'))
          → (if j == id then Option.map f (get m id) else get m id) ≡ some e
          → e.id ≡ id
      changed id e (inl q) g = absurd (ground (arith, q, g))
      changed id e (inr (e', q)) g = ground (arith, q, g, same e', h.keyed id e' q)

  pub probe_targets-IsTable :
      (probe : Text → Answer × ℕ × Nanos) (m : Map Text (AiEndpoint x))
      (targets : List (Text × Text))
      → IsTable m
      → IsTable (probe_targets probe m targets)
  unfolding probe_targets
  probe_targets-IsTable probe m [] h = h
  probe_targets-IsTable probe m ((id, url) ∷ targets) h =
      let (answer, latency, now) = probe (trim_end_slashes url ++ codes "/health") in
      let f : AiEndpoint x → AiEndpoint x =
        λ e. record e { health = judge now latency answer e.health } in
      probe_targets-IsTable probe (modify m id f) targets (modify-IsTable m id f (λ e. refl) h)

  pub add_endpoints-IsTable :
      (now : Nanos) (cfgs : List (ConfigEndpoint x × Text)) (m : Map Text (AiEndpoint x))
      → IsTable m
      → IsTable (add_endpoints now cfgs m)
  unfolding add_endpoints
  add_endpoints-IsTable now [] m h = h
  add_endpoints-IsTable now ((cfg, uuid) ∷ cfgs) m h =
      added (from_config cfg uuid now) refl (add_endpoints-IsTable now cfgs)
    where
      added :
          (r : Text ⊎ AiEndpoint x)
          → from_config cfg uuid now ≡ r
          → ((m' : Map Text (AiEndpoint x)) → IsTable m' → IsTable (add_endpoints now cfgs m'))
          → IsTable (add_endpoints now ((cfg, uuid) ∷ cfgs) m)
      added (inl error) q rest = rw (q, add_endpoints) (rest m h)
      added (inr ep) q rest =
          rw (q, add_endpoints) (rest (insert m ep.id ep) (insert-IsTable m ep h))

  pub empty-IsTable : IsTable []
  unfolding get
  empty-IsTable = record { distinct = tt; keyed = λ id e g. absurd (ground (arith, g)) }

  -- The form in which the handler of completions asks for it.
  pub All-IsTable : (m : Map Text (AiEndpoint x)) → IsTable m → All (λ e. e.1.id ≡ e.0) m
  unfolding get
  All-IsTable [] h = tt
  All-IsTable ((k, v) ∷ m) h = (
    h.keyed k v (ground (arith, eq_iff k k)),
    All-IsTable m (record {
      distinct = h.distinct.1;
      keyed = λ id e g. h.keyed id e (ground (arith, eq_iff k id, h.distinct.0, g));
    }),
  )
