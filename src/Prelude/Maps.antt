-- ===== src/Prelude/Maps.antt =====
-- `HashMap` and `DashMap`: association lists with one entry for each key. Their iteration order is
-- not specified, so a theorem about a traversal speaks of membership and never of the order.
use mathlib.Core.Path.{◌≡◌, refl, ◌∙◌}
use mathlib.Core.Bool.{Bool, true, false}
use mathlib.Core.Option.{Option, none, some}
use mathlib.Core.Option
use mathlib.Core.List.{List, [], ◌∷◌, map}
use native.Mathlib.Omega.{arith}
use xfiles.Prelude.Tests.{if◌then◌else◌, Key, ◌==◌, eq_iff}
use xfiles.Prelude.Lists.{filter, contains, In}

abbrev pub Map {ℓ κ} : Type ℓ → Type κ → Type (ℓ ⊔ κ)
Map K V = List (K × V)

module _ {ℓ κ} {K : Type ℓ} {V : Type κ} where
  abbrev pub keys : Map K V → List K
  keys = map (λ e. e.0)

module _ {ℓ κ} {K : Type ℓ} {V : Type κ} ⦃e : Key K⦄ where
  unfoldable pub get : Map K V → K → Option V
  get [] k = none
  get ((j, v) ∷ m) k = if j == k then some v else get m k

  unfoldable pub contains_key : Map K V → K → Bool
  contains_key [] k = false
  contains_key ((j, v) ∷ m) k = if j == k then true else contains_key m k

  unfoldable pub insert : Map K V → K → V → Map K V
  insert [] k v = (k, v) ∷ []
  insert ((j, w) ∷ m) k v = if j == k then (k, v) ∷ m else (j, w) ∷ insert m k v

  unfoldable pub remove : Map K V → K → Map K V
  remove [] k = []
  remove ((j, v) ∷ m) k = let rest = remove m k in if j == k then rest else (j, v) ∷ rest

  -- A write through `get_mut`: nothing happens where the key is missing.
  unfoldable pub modify : Map K V → K → (V → V) → Map K V
  modify [] k f = []
  modify ((j, v) ∷ m) k f = if j == k then (j, f v) ∷ m else (j, v) ∷ modify m k f

  -- Each key stands once.
  abbrev pub IsMap : Map K V → Type κ
  IsMap [] = Unit
  IsMap ((k, v) ∷ m) = (get m k ≡ none) × IsMap m

  pub get-insert :
      (m : Map K V) (k j : K) (v : V) → get (insert m k v) j ≡ (if k == j then some v else get m j)
  unfolding get insert
  get-insert [] k j v = refl
  get-insert ((i, w) ∷ m) k j v =
      ground (arith, eq_iff k j, eq_iff i k, eq_iff i j, get-insert m k j v)

  pub get-remove : (m : Map K V) (k j : K) → get (remove m k) j ≡ (if k == j then none else get m j)
  unfolding get remove
  get-remove [] k j = ground arith
  get-remove ((i, w) ∷ m) k j = ground (arith, eq_iff k j, eq_iff i k, eq_iff i j, get-remove m k j)

  pub get-modify :
      (m : Map K V) (k j : K) (f : V → V)
      → get (modify m k f) j ≡ (if k == j then Option.map f (get m j) else get m j)
  unfolding get modify
  get-modify [] k j f = ground arith
  get-modify ((i, w) ∷ m) k j f =
      ground (arith, eq_iff k j, eq_iff i k, eq_iff i j, get-modify m k j f)

  pub contains_key-get :
      (m : Map K V) (k : K) → contains_key m k ≡ (elim (get m k) [ none ↦ false | some _ ↦ true ])
  unfolding get contains_key
  contains_key-get [] k = refl
  contains_key-get ((i, w) ∷ m) k = ground (arith, contains_key-get m k)

  pub insert-IsMap : (m : Map K V) (k : K) (v : V) → IsMap m → IsMap (insert m k v)
  unfolding insert get
  insert-IsMap [] k v h = (refl, tt)
  insert-IsMap ((i, w) ∷ m) k v h =
      ground (arith, eq_iff i k, eq_iff k i, get-insert m k i v, insert-IsMap m k v h.1)

  pub remove-IsMap : (m : Map K V) (k : K) → IsMap m → IsMap (remove m k)
  unfolding remove get
  remove-IsMap [] k h = tt
  remove-IsMap ((i, w) ∷ m) k h = ground (arith, eq_iff k i, get-remove m k i, remove-IsMap m k h.1)

  pub modify-IsMap : (m : Map K V) (k : K) (f : V → V) → IsMap m → IsMap (modify m k f)
  unfolding modify get
  modify-IsMap [] k f h = tt
  modify-IsMap ((i, w) ∷ m) k f h =
      ground (arith, eq_iff k i, get-modify m k i f, modify-IsMap m k f h.1)

  get-filter-none :
      (p : K × V → Bool) (m : Map K V) (k : K) → get m k ≡ none → get (filter p m) k ≡ none
  unfolding get filter
  get-filter-none p [] k h = refl
  get-filter-none p ((i, w) ∷ m) k h = ground (arith, get-filter-none p m k)

  pub filter-IsMap : (p : K × V → Bool) (m : Map K V) → IsMap m → IsMap (filter p m)
  unfolding filter
  filter-IsMap p [] h = tt
  filter-IsMap p ((i, w) ∷ m) h = ground (arith, get-filter-none p m i h.0, filter-IsMap p m h.1)

  -- What stays after `retain`.
  pub get-filter :
      (p : K × V → Bool) (m : Map K V) (k : K)
      → IsMap m
      → get (filter p m) k
        ≡ (elim (get m k) [ none ↦ none | some v ↦ if p (k, v) then some v else none ])
  unfolding get filter
  get-filter p [] k h = refl
  get-filter p ((i, w) ∷ m) k h =
      ground (arith, eq_iff i k, get-filter-none p m i h.0, get-filter p m k h.1)

  -- `for id in ids { map.remove(&id) }`
  unfoldable pub remove_all : Map K V → List K → Map K V
  remove_all m [] = m
  remove_all m (k ∷ ks) = remove_all (remove m k) ks

  -- `iter().filter(p).map(key).collect()` and then `remove` of each: the idiom of every pruning pass.
  unfoldable pub remove_where : (K × V → Bool) → Map K V → Map K V
  unfolding remove_all
  remove_where p m = remove_all m (keys (filter p m))

  pub get-remove_all :
      (m : Map K V) (ks : List K) (k : K)
      → get (remove_all m ks) k ≡ (if contains ks k then none else get m k)
  unfolding remove_all contains
  get-remove_all m [] k = refl
  get-remove_all m (i ∷ ks) k =
      ground (arith, eq_iff i k, get-remove m i k, get-remove_all (remove m i) ks k)

  pub remove_all-IsMap : (m : Map K V) (ks : List K) → IsMap m → IsMap (remove_all m ks)
  unfolding remove_all
  remove_all-IsMap m [] h = h
  remove_all-IsMap m (i ∷ ks) h = remove_all-IsMap (remove m i) ks (remove-IsMap m i h)

  pub contains-keys : (m : Map K V) (k : K) → contains (keys m) k ≡ contains_key m k
  unfolding contains contains_key
  contains-keys [] k = refl
  contains-keys ((i, w) ∷ m) k = ground (arith, contains-keys m k)

  -- A pruning pass takes away the entries that meet the test, and no other.
  pub get-remove_where :
      (p : K × V → Bool) (m : Map K V) (k : K)
      → IsMap m
      → get (remove_where p m) k
        ≡ (elim (get m k) [ none ↦ none | some v ↦ if p (k, v) then none else some v ])
  unfolding remove_where
  get-remove_where p m k h = ground (
    arith,
    get-remove_all m (keys (filter p m)) k,
    contains-keys (filter p m) k,
    contains_key-get (filter p m) k,
    get-filter p m k h,
  )

  -- The same, with the test in another form.
  pub get-remove_where_by :
      (p : K × V → Bool) (q : V → Bool) (m : Map K V) (k : K)
      → ((v : V) → p (k, v) ≡ q v)
      → IsMap m
      → get (remove_where p m) k
        ≡ (elim (get m k) [ none ↦ none | some v ↦ if q v then none else some v ])
  get-remove_where_by p q m k e h = get-remove_where p m k h ∙ same_test (get m k)
    where
      same_test :
          (o : Option V)
          → (elim o [ none ↦ none | some v ↦ if p (k, v) then none else some v ])
            ≡ (elim o [ none ↦ none | some v ↦ if q v then none else some v ])
      same_test none = refl
      same_test (some v) = rw (e v) refl

  pub remove_where-IsMap : (p : K × V → Bool) (m : Map K V) → IsMap m → IsMap (remove_where p m)
  unfolding remove_where
  remove_where-IsMap p m h = remove_all-IsMap m (keys (filter p m)) h

module _ {ℓ κ μ} {K : Type ℓ} {V : Type κ} {W : Type μ} where
  -- A pass over all values, as through `iter_mut`.
  unfoldable pub map_values : (V → W) → Map K V → Map K W
  map_values f [] = []
  map_values f ((k, v) ∷ m) = (k, f v) ∷ map_values f m

module _ {ℓ κ μ} {K : Type ℓ} {V : Type κ} {W : Type μ} ⦃e : Key K⦄ where
  pub get-map_values :
      (f : V → W) (m : Map K V) (k : K) → get (map_values f m) k ≡ Option.map f (get m k)
  unfolding get map_values
  get-map_values f [] k = refl
  get-map_values f ((i, w) ∷ m) k = ground (arith, get-map_values f m k)

  pub map_values-IsMap : (f : V → W) (m : Map K V) → IsMap m → IsMap (map_values f m)
  unfolding map_values get
  map_values-IsMap f [] h = tt
  map_values-IsMap f ((i, w) ∷ m) h = ground (arith, get-map_values f m i, map_values-IsMap f m h.1)

pub In-of_get :
    {K V : Type 0} ⦃e : Key K⦄ (m : Map K V) (k : K) (v : V) → get m k ≡ some v → In (k, v) m
unfolding get
In-of_get [] k v h = absurd (ground arith)
In-of_get ((i, w) ∷ m) k v h = ground (arith, eq_iff i k, In-of_get m k v)

pub get_of_In :
    {K V : Type 0} ⦃e : Key K⦄ (m : Map K V) (k : K) (v : V)
    → IsMap m
    → In (k, v) m
    → get m k ≡ some v
unfolding get
get_of_In [] k v d h = absurd h
get_of_In ((i, w) ∷ m) k v d h = ground (arith, eq_iff i k, get_of_In m k v d.1)
