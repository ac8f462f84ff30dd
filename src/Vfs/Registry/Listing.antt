-- ===== src/Vfs/Registry/Listing.antt =====
-- src/fs/registry.rs: what `list` shows of a directory.
use xfiles.Prelude.{
  ◌≡◌, ◌⊎◌, ◌↔◌, refl, sym, subst, true, false, some, List, [], ◌∷◌, arith, In, first, ◌==◌, eq_iff,
  Text, text_eq, Bool-cases, inl, inr, Map,
}
use xfiles.Prelude.Texts.{text_ltb, text_ltb_asymm, text_ltb_total}
use xfiles.Vfs.Paths.{normalize, child_name}
use xfiles.Vfs.Vnode.{Vnode, is_dir}
use xfiles.Vfs.Registry.{VfsRegistry, get_node, insert_text, sort, dedup, child_names, list}

-- Each text comes strictly before the next.
abbrev pub IsIncreasing : List Text → Type 0
IsIncreasing [] = Unit
IsIncreasing (a ∷ []) = Unit
IsIncreasing (a ∷ b ∷ l) = (text_ltb a b ≡ true) × IsIncreasing (b ∷ l)

abbrev IsSorted : List Text → Type 0
IsSorted [] = Unit
IsSorted (a ∷ []) = Unit
IsSorted (a ∷ b ∷ l) = (text_ltb b a ≡ false) × IsSorted (b ∷ l)

insert_text-IsSorted : (a : Text) (l : List Text) → IsSorted l → IsSorted (insert_text a l)
unfolding insert_text
insert_text-IsSorted a [] h = tt
insert_text-IsSorted a (b ∷ []) h = ground (arith, text_ltb_asymm b a)
insert_text-IsSorted a (b ∷ c ∷ l) h =
    ground (arith, text_ltb_asymm b a, insert_text-IsSorted a (c ∷ l) h.1)

sort-IsSorted : (l : List Text) → IsSorted (sort l)
unfolding sort
sort-IsSorted [] = tt
sort-IsSorted (a ∷ l) = insert_text-IsSorted a (sort l) (sort-IsSorted l)

first-dedup : (a : Text) (l : List Text) → first (dedup (a ∷ l)) ≡ some a
unfolding dedup
first-dedup a [] = refl
first-dedup a (b ∷ l) = ground (arith, eq_iff a b, first-dedup b l)

cons-IsIncreasing :
    (a b : Text) (l : List Text)
    → first l ≡ some b
    → text_ltb a b ≡ true
    → IsIncreasing l
    → IsIncreasing (a ∷ l)
cons-IsIncreasing a b [] e h i = tt
cons-IsIncreasing a b (c ∷ l) e h i = (ground arith, i)

dedup-IsIncreasing : (l : List Text) → IsSorted l → IsIncreasing (dedup l)
unfolding dedup
dedup-IsIncreasing [] h = tt
dedup-IsIncreasing (a ∷ []) h = tt
dedup-IsIncreasing (a ∷ b ∷ l) h = elim (Bool-cases (a == b)) [
  | inl e ↦ rw e (dedup-IsIncreasing (b ∷ l) h.1)
  | inr e ↦ rw e (
      cons-IsIncreasing a b (dedup (b ∷ l)) (first-dedup b l)
        (ground (arith, h.0, eq_iff a b, text_ltb_total a b)) (dedup-IsIncreasing (b ∷ l) h.1))
]

In-insert_text : (n a : Text) (l : List Text) → In n (insert_text a l) ↔ ((n ≡ a) ⊎ In n l)
unfolding insert_text
In-insert_text n a [] = (λ h. h, λ h. h)
In-insert_text n a (b ∷ l) =
    (λ h. ground (arith, (In-insert_text n a l).0), λ h. ground (arith, (In-insert_text n a l).1))

In-sort : (n : Text) (l : List Text) → In n (sort l) ↔ In n l
unfolding sort
In-sort n [] = (λ h. h, λ h. h)
In-sort n (a ∷ l) = (
  λ h. ground (arith, (In-insert_text n a (sort l)).0 h, (In-sort n l).0),
  λ h. ground (arith, (In-insert_text n a (sort l)).1, (In-sort n l).1),
)

In-dedup : (n : Text) (l : List Text) → In n (dedup l) ↔ In n l
unfolding dedup
In-dedup n [] = (λ h. h, λ h. h)
In-dedup n (a ∷ []) = (λ h. h, λ h. h)
In-dedup n (a ∷ b ∷ l) = (
  λ h. ground (arith, eq_iff a b, (In-dedup n (b ∷ l)).0),
  λ h. ground (arith, eq_iff a b, (In-dedup n (b ∷ l)).1),
)

-- A node of the registry with that name below the path.
abbrev pub HasChild : Text → Map Text Vnode → Text → Type 0
HasChild path [] n = ⊥
HasChild path ((key, node) ∷ nodes) n = (child_name path key ≡ some n) ⊎ HasChild path nodes n

In-child_names :
    (path : Text) (nodes : Map Text Vnode) (n : Text)
    → In n (child_names path nodes) ↔ HasChild path nodes n
unfolding child_names
In-child_names path [] n = (λ h. h, λ h. h)
In-child_names path ((key, node) ∷ nodes) n = (
  λ h. ground (arith, (In-child_names path nodes n).0),
  λ h. ground (arith, (In-child_names path nodes n).1),
)

-- For the path of a directory, `list` shows the names of the nodes that `child_name` finds directly
-- below it, all of them and no other, each once and in increasing order.
pub list_lem :
    (r : VfsRegistry) (path : Text) (node : Vnode)
    → get_node r path ≡ some node
    → is_dir node ≡ true
    → IsIncreasing (list r path)
      × ((n : Text) → In n (list r path) ↔ HasChild (normalize path) r.nodes n)
unfolding list get_node
list_lem r path node e d =
    let names = child_names (normalize path) r.nodes in
    let shown : list r path ≡ dedup (sort names) = rw (e, list) (rw d refl) in
    (
      subst IsIncreasing (sym shown) (dedup-IsIncreasing (sort names) (sort-IsSorted names)),
      λ n. (
        λ h.
            (In-child_names (normalize path) r.nodes n).0
              ((In-sort n names).0 ((In-dedup n (sort names)).0 (subst (In n) shown h))),
        λ h. subst (In n) (sym shown) (
            (In-dedup n (sort names)).1
              ((In-sort n names).1 ((In-child_names (normalize path) r.nodes n).1 h))),
      ),
    )
