-- ===== src/Device/Tree/View.antt =====
-- The device tree as what its interface in devicetree.hpp promises: a map from a device to its parent,
-- without the order of the nodes and their callbacks.
use mathlib.Core.Path.{fun_ext, subst}
use hhctrl_mgmt.Base.{
  ℕ, ◌≡◌, ◌↔◌, refl, sym, ◌∙◌, Bool, true, false, ◌&&◌, Option, none, some, List, [], ◌∷◌, arith,
  ◌==◌, if◌then◌else◌, not_empty, ==_refl,
}
use hhctrl_mgmt.Device.Tree.{Node, add_child, remove_child, remove, parent, all_children}
use hhctrl_mgmt.Device.Tree.Laws.{
  IsTree, find_if-append, add_child_lem, elem, elem-all_children, same_id, remove_child_lem,
  is_parent, remove_lem,
}

abbrev pub View : Type 0
View = ℕ → Option ℕ

abbrev pub view : List Node → View
view ns d = parent d ns

-- The operations that change the tree.
pub data Op : Type 0 where
  add : (parent_device_id device_id : ℕ) (on_parent_removed : Option ℕ) → Op
  take_child : (parent_device_id device_id : ℕ) → Op
  take_all : (parent_device_id : ℕ) → Op

abbrev pub run_op : Op → List Node → List Node × Bool
run_op (add p d f) ns = add_child p d f ns
run_op (take_child p d) ns = remove_child p d ns
run_op (take_all p) ns = let r = remove p ns in (r.0, r.1)

-- The view after an operation: a device keeps its first parent until it is taken from it.
abbrev pub moved : Op → View → View
moved (add p d f) m e = if e == d then (elim (m d) [ some q ↦ some q | none ↦ some p ]) else m e
moved (take_child p d) m e = if e == d && is_parent p (m d) then none else m e
moved (take_all p) m e = if is_parent p (m e) then none else m e

-- What an operation on the one view promises of its answer and the other view.
abbrev pub Promises : View → Op → Bool → View → Type 0
Promises m (add p d f) b m' = (m' ≡ moved (add p d f) m) × ((b ≡ true) ↔ (m' d ≡ some p))
Promises m (take_child p d) b m' = (m' ≡ moved (take_child p d) m) × ((b ≡ true) ↔ (m d ≡ some p))
Promises m (take_all p) b m' =
    (m' ≡ moved (take_all p) m) × ((b ≡ true) ↔ ((d : ℕ) × (m d ≡ some p)))

add-Promises :
    (p d : ℕ) (f : Option ℕ) (ns : List Node)
    → IsTree ns
    → Promises (view ns) (add p d f) (add_child p d f ns).1 (view (add_child p d f ns).0)
unfolding add_child parent
add-Promises p d f ns t = (
  fun_ext (λ e. ground (
    arith,
    find_if-append e ns (record { parent_device_id = p; device_id = d; func = f }),
    same_id e d ns,
  )),
  (add_child_lem p d d f ns t).1,
)

take_child-Promises :
    (p d : ℕ) (ns : List Node)
    → IsTree ns
    → Promises (view ns) (take_child p d) (remove_child p d ns).1 (view (remove_child p d ns).0)
take_child-Promises p d ns t = (
  fun_ext (λ e. ground (arith, (remove_child_lem p d e ns t).1, (remove_child_lem p d e ns t).2)),
  (remove_child_lem p d d ns t).1,
)

first_of : (cs : List ℕ) → not_empty cs ≡ true → (d : ℕ) × (elem d cs ≡ true)
first_of [] h = absurd (cc h)
first_of (c ∷ cs) h = (c, ground (arith, ==_refl c))

not_empty-elem : (d : ℕ) (cs : List ℕ) → elem d cs ≡ true → not_empty cs ≡ true
not_empty-elem d [] h = h
not_empty-elem d (c ∷ cs) h = refl

take_all-Promises :
    (p : ℕ) (ns : List Node)
    → IsTree ns
    → Promises (view ns) (take_all p) (remove p ns).1 (view (remove p ns).0)
take_all-Promises p ns t = (
  fun_ext (λ e. (remove_lem p e ns t).3),
  (
    λ removed.
        let (d, listed) = first_of (all_children p ns) (cc (removed, (remove_lem p 0 ns t).1)) in
        (d, (elem-all_children p d ns t).0 listed),
    λ (d, child). cc (
      (remove_lem p 0 ns t).1,
      not_empty-elem d (all_children p ns) ((elem-all_children p d ns t).1 child),
    ),
  ),
)

-- One operation after another, with their answers.
abbrev pub run_ops : List Op → List Node → List Node × List Bool
run_ops [] ns = (ns, [])
run_ops (op ∷ ops) ns =
    let (ns₁, answer) = run_op op ns in
    let (ns₂, answers) = run_ops ops ns₁ in (ns₂, answer ∷ answers)

-- From the first view to the second, with these answers, by what each operation promises.
pub data Follows : View → List Op → List Bool → View → Type 0 where
  start : {m : View} → Follows m [] [] m
  next :
      {m m₁ m₂ : View} {op : Op} {answer : Bool} {ops : List Op} {answers : List Bool}
      → Promises m op answer m₁
      → Follows m₁ ops answers m₂
      → Follows m (op ∷ ops) (answer ∷ answers) m₂

pub run_op-Promises :
    (op : Op) (ns : List Node)
    → IsTree ns
    → IsTree (run_op op ns).0 × Promises (view ns) op (run_op op ns).1 (view (run_op op ns).0)
run_op-Promises (add p d f) ns t = ((add_child_lem p d d f ns t).0, add-Promises p d f ns t)
run_op-Promises (take_child p d) ns t =
    ((remove_child_lem p d d ns t).0, take_child-Promises p d ns t)
run_op-Promises (take_all p) ns t = ((remove_lem p 0 ns t).0, take_all-Promises p ns t)

pub run_op-moved :
    (op : Op) (ns : List Node) → IsTree ns → view (run_op op ns).0 ≡ moved op (view ns)
run_op-moved (add p d f) ns t = (add-Promises p d f ns t).0
run_op-moved (take_child p d) ns t = (take_child-Promises p d ns t).0
run_op-moved (take_all p) ns t = (take_all-Promises p ns t).0

-- From a tree in which no device has two nodes, any sequence of operations leaves such a tree, and
-- follows the promises of the operations on the map from devices to parents, answers included. The
-- children listed of a device are then exactly those that the map gives it as their parent.
pub run_ops-Follows :
    (ops : List Op) (ns : List Node)
    → IsTree ns
    → let (ns', answers) = run_ops ops ns in
      IsTree ns'
      × Follows (view ns) ops answers (view ns')
      × ((p d : ℕ) → (elem d (all_children p ns') ≡ true) ↔ (view ns' d ≡ some p))
run_ops-Follows [] ns t = (t, start, λ p d. elem-all_children p d ns t)
run_ops-Follows (op ∷ ops) ns t =
    let (t₁, promised) = run_op-Promises op ns t in
    let (t₂, followed, listed) = run_ops-Follows ops (run_op op ns).0 t₁ in
    (t₂, next promised followed, listed)

bool_of_iff : {P : Type 0} (a b : Bool) → (a ≡ true) ↔ P → (b ≡ true) ↔ P → a ≡ b
bool_of_iff true b h k = sym (k.1 (h.0 refl))
bool_of_iff false true h k = h.1 (k.0 refl)
bool_of_iff false false h k = refl

same_promise :
    (op : Op) (m m₁ m₂ : View) (a b : Bool)
    → Promises m op a m₁
    → Promises m op b m₂
    → (m₁ ≡ m₂) × (a ≡ b)
same_promise (add p d f) m m₁ m₂ a b h k =
    let same : (m₁ ≡ m₂) = h.0 ∙ sym k.0 in (same, bool_of_iff a b h.1 (rw same k.1))
same_promise (take_child p d) m m₁ m₂ a b h k = (h.0 ∙ sym k.0, bool_of_iff a b h.1 k.1)
same_promise (take_all p) m m₁ m₂ a b h k = (h.0 ∙ sym k.0, bool_of_iff a b h.1 k.1)

-- Two trees in which no device has two nodes and that give each device the same parent cannot be told
-- apart: any sequence of operations gives the same answers on both, and leaves trees that give each
-- device the same parent, in whatever order their nodes stand.
pub run_ops-view :
    (ops : List Op) (ns ms : List Node)
    → IsTree ns
    → IsTree ms
    → view ns ≡ view ms
    → (view (run_ops ops ns).0 ≡ view (run_ops ops ms).0)
      × ((run_ops ops ns).1 ≡ (run_ops ops ms).1)
run_ops-view [] ns ms t u e = (e, refl)
run_ops-view (op ∷ ops) ns ms t u e =
    let (t₁, promised) = run_op-Promises op ns t in
    let (u₁, promised') = run_op-Promises op ms u in
    let (same, answer) =
      same_promise op (view ms) _ _ _ _
        (subst (λ m. Promises m op (run_op op ns).1 (view (run_op op ns).0)) e promised)
        promised' in
    let (views, answers) = run_ops-view ops (run_op op ns).0 (run_op op ms).0 t₁ u₁ same in
    (views, cc (answer, answers))
