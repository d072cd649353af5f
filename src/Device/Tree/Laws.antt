-- ===== src/Device/Tree/Laws.antt =====
-- The device tree as a map from a device to its parent.
use hhctrl_mgmt.Base.{
  ℕ, ◌≡◌, refl, ◌↔◌, inl, inr, Bool, true, false, ◌&&◌, Option, none, some, List, [], ◌∷◌, ◌++◌,
  arith, ◌==◌, if◌then◌else◌, find_if, erase_if, erase_first, any_of, is_some, Bool-cases, count_if,
  length-append, ◌+◌, length, not_empty,
}
use hhctrl_mgmt.Device.Tree.{
  Node, has_id, has_parent, is_edge, add_child, remove_child, remove_if, remove, parent,
  all_children,
}

-- No device has two nodes.
abbrev pub IsTree : List Node → Type 0
IsTree [] = Unit {0}
IsTree (n ∷ ns) = (find_if (has_id n.device_id) ns ≡ none) × IsTree ns

pub find_if-append :
    (d : ℕ) (ns : List Node) (n : Node)
    → find_if (has_id d) (ns ++ n ∷ []) ≡ (elim (find_if (has_id d) ns) [
      | some m ↦ some m
      | none ↦ if has_id d n then some n else none
    ])
find_if-append d [] n = refl
find_if-append d (m ∷ ns) n = ground (arith, find_if-append d ns n)

append-IsTree :
    (ns : List Node) (n : Node)
    → find_if (has_id n.device_id) ns ≡ none
    → IsTree ns
    → IsTree (ns ++ n ∷ [])
append-IsTree [] n e t = (refl, tt)
append-IsTree (m ∷ ns) n e t = ground (arith, append-IsTree ns n, find_if-append m.device_id ns n)

-- On a tree in which no device has two nodes: a device has the requested parent after `add_child`
-- exactly when that returns true, the parent of every other device stays, and no device gets a
-- second node.
pub add_child_lem :
    (p d e : ℕ) (f : Option ℕ) (ns : List Node)
    → IsTree ns
    → let (ns', added) = add_child p d f ns in
      IsTree ns'
      × ((added ≡ true) ↔ (parent d ns' ≡ some p))
      × (parent e ns' ≡ (if e == d then parent d ns' else parent e ns))
unfolding add_child parent
add_child_lem p d e f ns t = ground (
  arith,
  append-IsTree ns (record { parent_device_id = p; device_id = d; func = f }),
  find_if-append d ns (record { parent_device_id = p; device_id = d; func = f }),
  find_if-append e ns (record { parent_device_id = p; device_id = d; func = f }),
)

pub same_id : (d e : ℕ) (ns : List Node) → d ≡ e → find_if (has_id d) ns ≡ find_if (has_id e) ns
same_id d e ns h = rw h

abbrev pub elem : ℕ → List ℕ → Bool
elem d = any_of (λ x. x == d)

not_child :
    (p d : ℕ) (ns : List Node) → find_if (has_id d) ns ≡ none → elem d (all_children p ns) ≡ false
unfolding all_children
not_child p d [] h = refl
not_child p d (n ∷ ns) h = ground (arith, not_child p d ns)

-- A device is listed among the children of `p` exactly when its parent is `p`.
pub elem-all_children :
    (p d : ℕ) (ns : List Node)
    → IsTree ns
    → (elem d (all_children p ns) ≡ true) ↔ (parent d ns ≡ some p)
unfolding all_children parent
elem-all_children p d [] t = ground arith
elem-all_children p d (n ∷ ns) t =
    ground (arith, elem-all_children p d ns t.1, not_child p d ns, same_id n.device_id d ns)

no_edge :
    (p d : ℕ) (ns : List Node) → find_if (has_id d) ns ≡ none → find_if (is_edge p d) ns ≡ none
no_edge p d [] h = refl
no_edge p d (n ∷ ns) h = ground (arith, no_edge p d ns)

erase_first-find :
    (p d e : ℕ) (ns : List Node)
    → IsTree ns
    → find_if (has_id e) (erase_first (is_edge p d) ns)
      ≡ (if e == d && is_some (find_if (is_edge p d) ns) then none else find_if (has_id e) ns)
erase_first-find p d e [] t = ground arith
erase_first-find p d e (n ∷ ns) t = elim (Bool-cases (is_edge p d n)) [
  | inl hit ↦ rw hit (ground (arith, hit, same_id n.device_id e ns))
  | inr miss ↦ rw miss (
      ground (arith, miss, erase_first-find p d e ns t.1, no_edge p d ns, same_id n.device_id d ns))
]

erase_if-find :
    (p e : ℕ) (ns : List Node)
    → IsTree ns
    → find_if (has_id e) (erase_if (has_parent p) ns) ≡ (elim (find_if (has_id e) ns) [
      | some m ↦ if has_parent p m then none else some m
      | none ↦ none
    ])
erase_if-find p e [] t = refl
erase_if-find p e (n ∷ ns) t = ground (arith, erase_if-find p e ns t.1)

erase_first-IsTree : (p d : ℕ) (ns : List Node) → IsTree ns → IsTree (erase_first (is_edge p d) ns)
erase_first-IsTree p d [] t = tt
erase_first-IsTree p d (n ∷ ns) t = elim (Bool-cases (is_edge p d n)) [
  | inl hit ↦ rw hit t.1
  | inr miss ↦
      rw miss
        (ground (arith, erase_first-IsTree p d ns t.1, erase_first-find p d n.device_id ns t.1))
]

find_edge :
    (p d : ℕ) (ns : List Node)
    → IsTree ns
    → (is_some (find_if (is_edge p d) ns) ≡ true) ↔ (parent d ns ≡ some p)
unfolding parent
find_edge p d [] t = ground arith
find_edge p d (n ∷ ns) t =
    ground (arith, find_edge p d ns t.1, no_edge p d ns, same_id n.device_id d ns)

-- On a tree in which no device has two nodes, `remove_child` succeeds exactly when the device is a
-- child of `p`. Then the device has no parent any more; every other device keeps the one it had,
-- and no device gets a second node.
pub remove_child_lem :
    (p d e : ℕ) (ns : List Node)
    → IsTree ns
    → let (ns', removed) = remove_child p d ns in
      IsTree ns'
      × ((removed ≡ true) ↔ (parent d ns ≡ some p))
      × (parent e ns' ≡ (if e == d && removed then none else parent e ns))
unfolding remove_child parent
remove_child_lem p d e ns t =
    ground (arith, erase_first-IsTree p d ns t, erase_first-find p d e ns t, find_edge p d ns t)

remove_if-kept :
    (p : Node → Bool) (gaps : List (Option ℕ)) (ns : List Node)
    → (remove_if p gaps ns).0 ≡ erase_if p ns
unfolding remove_if
remove_if-kept p gaps [] = refl
remove_if-kept p [] (n ∷ ns) =
    ground (arith, remove_if-kept p [] ns, remove_if-kept p (n.func ∷ []) ns)
remove_if-kept p (g ∷ gs) (n ∷ ns) =
    ground
      (arith, remove_if-kept p (gs ++ none ∷ []) ns, remove_if-kept p (g ∷ gs ++ n.func ∷ []) ns)

remove_if-tail :
    (p : Node → Bool) (gaps : List (Option ℕ)) (ns : List Node)
    → length (remove_if p gaps ns).1 ≡ length gaps + count_if p ns
unfolding remove_if
remove_if-tail p gaps [] = omega arith
remove_if-tail p [] (n ∷ ns) =
    ground (arith, remove_if-tail p [] ns, remove_if-tail p (n.func ∷ []) ns)
remove_if-tail p (g ∷ gs) (n ∷ ns) = ground (
  arith,
  remove_if-tail p (gs ++ none ∷ []) ns,
  remove_if-tail p (g ∷ gs ++ n.func ∷ []) ns,
  length-append gs (none ∷ []),
  length-append gs (n.func ∷ []),
)

erase_if-IsTree : (p : ℕ) (ns : List Node) → IsTree ns → IsTree (erase_if (has_parent p) ns)
erase_if-IsTree p [] t = tt
erase_if-IsTree p (n ∷ ns) t =
    ground (arith, erase_if-IsTree p ns t.1, erase_if-find p n.device_id ns t.1)

no_children : (p : ℕ) (ns : List Node) → all_children p (erase_if (has_parent p) ns) ≡ []
unfolding all_children
no_children p [] = refl
no_children p (n ∷ ns) = ground (arith, no_children p ns)

count_children : (p : ℕ) (ns : List Node) → count_if (has_parent p) ns ≡ length (all_children p ns)
unfolding all_children
count_children p [] = refl
count_children p (n ∷ ns) = ground (arith, count_children p ns)

remove-kept : (p : ℕ) (ns : List Node) → (remove p ns).0 ≡ erase_if (has_parent p) ns
unfolding remove
remove-kept p ns = remove_if-kept (has_parent p) [] ns

not_empty-eq :
    {A B : Type 0} (xs : List A) (ys : List B) → length xs ≡ length ys → not_empty xs ≡ not_empty ys
not_empty-eq [] [] h = refl
not_empty-eq [] (y ∷ ys) h = absurd (omega arith)
not_empty-eq (x ∷ xs) [] h = absurd (omega arith)
not_empty-eq (x ∷ xs) (y ∷ ys) h = refl

remove-found : (p : ℕ) (ns : List Node) → (remove p ns).1 ≡ not_empty (all_children p ns)
unfolding remove
remove-found p ns =
    not_empty-eq (remove_if (has_parent p) [] ns).1 (all_children p ns)
      (omega (arith, remove_if-tail (has_parent p) [] ns, count_children p ns))

abbrev pub is_parent : ℕ → Option ℕ → Bool
is_parent p none = false
is_parent p (some q) = q == p

-- On a tree in which no device has two nodes, `remove` tells whether the device had children, and
-- leaves it none. Every device that was its child has no parent any more; every other device keeps
-- its own, and none gets a second node.
pub remove_lem :
    (p e : ℕ) (ns : List Node)
    → IsTree ns
    → let r = remove p ns in
      IsTree r.0
      × (r.1 ≡ not_empty (all_children p ns))
      × (all_children p r.0 ≡ [])
      × (parent e r.0 ≡ (if is_parent p (parent e ns) then none else parent e ns))
unfolding parent
remove_lem p e ns t = rw (remove-kept p ns) (
  erase_if-IsTree p ns t,
  remove-found p ns,
  no_children p ns,
  ground (arith, erase_if-find p e ns t),
)
