-- ===== src/Examples/Devices.antt =====
-- The device tree, the registry and the main board at concrete inputs.
use mathlib.Core.Path.{fun_ext}
use hhctrl_mgmt.Base.{ℕ, ◌≡◌, ◌↔◌, arith, true, false, refl, none, some, List, [], ◌∷◌}
use hhctrl_mgmt.Base.Outcome.{done}
use hhctrl_mgmt.Device.Tree.{
  Node, add_child, remove_child, remove_if, remove, parent, all_children, destroy,
}
use hhctrl_mgmt.Device.Tree.Laws.{IsTree, elem}
use hhctrl_mgmt.Device.Tree.View.{
  Op, add, take_child, take_all, view, Follows, run_ops, run_ops-Follows, run_ops-view,
}
use hhctrl_mgmt.Device.Tree.Callbacks.{remove_callbacks}
use hhctrl_mgmt.Board.{on, off, fault, status, indicator_state, set_indicator_state, rgb_indicators}
use hhctrl_mgmt.Board.Leds.{Files}
use hhctrl_mgmt.Board.Exclusive.{set_indicator_state_on}

abbrev node : ℕ → ℕ → Node
node p d = record { parent_device_id = p; device_id = d; func = some d }

abbrev tree : List Node
tree = node 1 2 ∷ node 1 3 ∷ node 4 5 ∷ []

-- A device is put under two others, of which the second is too late, and its siblings are taken away.
abbrev requests : List Op
requests =
    add 4 6 none ∷ add 1 6 none ∷ take_child 4 5 ∷ take_child 4 5 ∷ take_all 1 ∷ take_all 1 ∷ []

abbrev tree-IsTree : IsTree tree
tree-IsTree = (refl, (refl, (refl, tt)))

run_ops-Follows_example :
    IsTree (record { parent_device_id = 4; device_id = 6; func = none } ∷ [])
    × Follows
        (view tree)
        requests
        (true ∷ false ∷ true ∷ false ∷ true ∷ false ∷ [])
        (view (record { parent_device_id = 4; device_id = 6; func = none } ∷ []))
    × ((p d : ℕ)
        → (elem d
              (all_children p (record { parent_device_id = 4; device_id = 6; func = none } ∷ []))
            ≡ true)
          ↔ (view (record { parent_device_id = 4; device_id = 6; func = none } ∷ []) d ≡ some p))
unfolding add_child remove_child remove remove_if
run_ops-Follows_example = run_ops-Follows requests tree tree-IsTree

abbrev same_tree : List Node
same_tree = node 4 5 ∷ node 1 3 ∷ node 1 2 ∷ []

same_view : view tree ≡ view same_tree
unfolding parent
same_view = fun_ext (λ d. ground arith)

run_ops-view_example :
    (view (run_ops requests tree).0 ≡ view (run_ops requests same_tree).0)
    × ((run_ops requests tree).1 ≡ (run_ops requests same_tree).1)
run_ops-view_example =
    run_ops-view requests tree same_tree tree-IsTree (refl, (refl, (refl, tt))) same_view

-- One child is kept after the two that are removed: the callback of the first never runs.
remove_callbacks_example : (remove 1 tree).2 ≡ 3 ∷ []
unfolding destroy
remove_callbacks_example =
    remove_callbacks 1 [] (node 1 2 ∷ node 1 3 ∷ []) (node 4 5 ∷ []) tt (refl, (refl, tt))
      (refl, tt)

abbrev leds : Files
leds path = some 0

set_indicator_state_on_example :
    (files' : Files) × (set_indicator_state fault on (rgb_indicators 0 1 2) leds
      ≡ done (tt, files'))
    × (indicator_state status (rgb_indicators 0 1 2) files' ≡ done (off, files'))
set_indicator_state_on_example =
    set_indicator_state_on 0 1 2 leds 0 0 0 refl refl refl refl refl refl fault status
