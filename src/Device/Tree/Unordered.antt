-- ===== src/Device/Tree/Unordered.antt =====
-- The device tree without the order of its nodes: trees that give each device the same parent are one.
use mathlib.Core.Path.{fun_ext}
use mathlib.Core.Quot
use mathlib.Core.Quot.{Quot, Quot-set}
use hhctrl_mgmt.Base.{ℕ, ◌≡◌, ◌≢◌, sym, ap, ◌∙◌, Option, List, [], ◌∷◌, arith}
use hhctrl_mgmt.Device.Tree.{Node}
use hhctrl_mgmt.Device.Tree.Laws.{IsTree}
use hhctrl_mgmt.Device.Tree.View.{
  View, view, Op, add, take_all, run_op, run_op-Promises, moved, run_op-moved, run_ops-view,
}

abbrev Nodes : Type 0
Nodes = (ns : List Node) × IsTree ns

abbrev pub SameView : Nodes → Nodes → Type 0
SameView s t = view s.0 ≡ view t.0

abbrev pub Tree : Type 0
Tree = Quot SameView

-- The nodes after the operation.
abbrev changed : Op → Nodes → Nodes
changed op s = ((run_op op s.0).0, (run_op-Promises op s.0 s.1).0)

unfoldable pub change : Op → Tree → Tree
change op =
    Quot.lift Quot-set (λ s. Quot.mk (changed op s))
      (λ s t h. Quot.sound (run_ops-view (op ∷ []) s.0 t.0 s.1 t.1 h).0)

changed_twice :
    (op later : Op) (s : Nodes)
    → view (changed later (changed op s)).0 ≡ moved later (moved op (view s.0))
changed_twice op later s =
    run_op-moved later (changed op s).0 (changed op s).1
    ∙ ap (moved later) (run_op-moved op s.0 s.1)

commute :
    (op later : Op) (t : Tree)
    → ((m : View) → moved later (moved op m) ≡ moved op (moved later m))
    → change later (change op t) ≡ change op (change later t)
unfolding change
commute op later t h =
    Quot.ind {β = λ t. change later (change op t) ≡ change op (change later t)} (λ t. Quot-set _ _)
      (λ s. Quot.sound (changed_twice op later s ∙ h (view s.0) ∙ sym (changed_twice later op s))) t

-- In the device tree without the order of its nodes, devices can be added in any order, if they differ,
-- and the children of devices can be taken away in any order.
pub change_comm :
    (p q d e : ℕ) (f g : Option ℕ) (t : Tree)
    → d ≢ e
    → (change (add p d f) (change (add q e g) t) ≡ change (add q e g) (change (add p d f) t))
      × (change (take_all p) (change (take_all q) t) ≡ change (take_all q) (change (take_all p) t))
change_comm p q d e f g t h = (
  commute (add q e g) (add p d f) t (λ m. fun_ext (λ x. ground (arith, h))),
  commute (take_all q) (take_all p) t (λ m. fun_ext (λ x. ground arith)),
)
