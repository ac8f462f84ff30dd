-- ===== src/Quantum/Entanglement/Pairs.antt =====
-- src/quantum/entanglement.rs: a correlation is one of an unordered pair.
use xfiles.Prelude.{
  ◌≡◌, refl, ap, ◌∙◌, Bool, true, false, Option, some, arith, ◌&&◌, if◌then◌else◌, ◌==◌, eq_iff,
  eq_refl, Text, text_eq, nat_eq, pair_eq, Map, Bool-cases, inl, inr,
}
use xfiles.Prelude.Maps.{get, insert, get-insert}
use xfiles.Prelude.Texts.{text_ltb_asymm, text_ltb_total}
use xfiles.Prelude.Time.{Nanos}
use xfiles.Message.{Uuid}
use xfiles.Floats.{Floats}
use xfiles.Quantum.Entanglement.{
  EntanglementTable, ordered_key, ConversationCorrelations, map_of, or_zero, moving_average,
  record_pair, get_correlation,
}

ordered_key_comm : (a b : Text) → ordered_key a b ≡ ordered_key b a
ordered_key_comm a b = ground (arith, text_ltb_asymm a b, text_ltb_asymm b a, text_ltb_total a b)

module _ (fl : Floats) where
  -- The correlation at a key of a conversation.
  abbrev at : Map Uuid (ConversationCorrelations fl) → Uuid → Text × Text → fl.F64
  at cs j k = or_zero fl (get (map_of fl (get cs j)) k)

  at-insert :
      (cs : Map Uuid (ConversationCorrelations fl)) (id j : Uuid) (key k : Text × Text) (v : fl.F64)
      (now : Nanos)
      → at
          (insert cs id (record { map = insert (map_of fl (get cs id)) key v; last_active = now }))
          j
          k
        ≡ (if (id == j) && (key == k) then v else at cs j k)
  at-insert cs id j key k v now = elim (Bool-cases (id == j)) [
    | inl e ↦
        let cell : ConversationCorrelations fl = record {
          map = insert (map_of fl (get cs id)) key v;
          last_active = now;
        } in
        let found : get (insert cs id cell) j ≡ some cell = get-insert cs id j cell ∙ rw e refl in
        let here : get cs id ≡ get cs j = ap (get cs) ((eq_iff id j).0 e) in
        ap (λ o. or_zero fl (get (map_of fl o) k)) found
        ∙ ap (or_zero fl) (get-insert (map_of fl (get cs id)) key k v)
        ∙ rw (e, here) (or_zero-if (key == k) v (get (map_of fl (get cs j)) k))
    | inr e ↦
        let cell : ConversationCorrelations fl = record {
          map = insert (map_of fl (get cs id)) key v;
          last_active = now;
        } in
        let found : get (insert cs id cell) j ≡ get cs j = get-insert cs id j cell ∙ rw e refl in
        ap (λ o. or_zero fl (get (map_of fl o) k)) found ∙ rw e refl
  ]
    where
      or_zero-if :
          (b : Bool) (v : fl.F64) (o : Option fl.F64)
          → or_zero fl (if b then some v else o) ≡ (if b then v else or_zero fl o)
      or_zero-if true v o = refl
      or_zero-if false v o = refl

  at_same :
      (cs : Map Uuid (ConversationCorrelations fl)) (id j : Uuid) (key k : Text × Text)
      (reward : fl.F64)
      → (if (id == j) && (key == k) then moving_average fl (at cs id key) reward else at cs j k)
        ≡ (if (id == j) && (key == k) then moving_average fl (at cs j k) reward else at cs j k)
  at_same cs id j key k reward = elim (Bool-cases (id == j)) [
    | inl e ↦ elim (Bool-cases (key == k)) [
      | inl f ↦ rw (e, f) (rw ((eq_iff id j).0 e, (eq_iff key k).0 f) refl)
      | inr f ↦ rw (e, f) refl
    ]
    | inr e ↦ rw e refl
  ]

  -- The correlation of two endpoints does not depend on their order, and neither does `record_pair`.
  -- After `record_pair` the correlation of the pair, in either order, is the moving average of the old
  -- one and the reward; that of a pair with another key or in another conversation is what it was.
  pub get_correlation-record_pair :
      (t : EntanglementTable fl) (now : Nanos) (id j : Uuid) (a b c d : Text) (reward : fl.F64)
      → let t' = record_pair fl t now id a b reward in
        (get_correlation fl t j c d ≡ get_correlation fl t j d c)
        × (record_pair fl t now id b a reward ≡ t')
        × (get_correlation fl t' id a b ≡ moving_average fl (get_correlation fl t id a b) reward)
        × (get_correlation fl t' j c d ≡ (
            if (id == j) && (ordered_key a b == ordered_key c d)
            then moving_average fl (get_correlation fl t j c d) reward
            else get_correlation fl t j c d))
  unfolding record_pair get_correlation
  get_correlation-record_pair t now id j a b c d reward = (
    ap (λ k. or_zero fl (get (map_of fl (get t.correlations j)) k)) (ordered_key_comm c d),
    rw (ordered_key_comm b a) refl,
    at-insert t.correlations id id (ordered_key a b) (ordered_key a b) _ now
        ∙ rw (eq_refl id, eq_refl (ordered_key a b)) refl,
    at-insert t.correlations id j (ordered_key a b) (ordered_key c d) _ now
        ∙ at_same t.correlations id j (ordered_key a b) (ordered_key c d) reward,
  )
