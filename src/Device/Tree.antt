-- ===== src/Device/Tree.antt =====
-- The device tree: src/device/include/device/devicetree.hpp and src/main_board/devicetree.cpp.
-- A node's callback is a number, and `none` an empty `std::function`. A `std::function` that has
-- been moved from is empty. Each operation that destroys nodes also returns the callbacks that
-- the destructors run, in order.
pub mod Laws
pub mod Callbacks
pub mod View
pub mod Unordered
use hhctrl_mgmt.Base.{
  ℕ, ◌≡◌, refl, Bool, true, false, not, ◌&&◌, Option, none, some, List, [], ◌∷◌, ◌++◌, map, ◌==◌,
  if◌then◌else◌, find_if, erase_if, erase_first, is_some, not_empty,
}

pub record Node : Type 0 where
  pub parent_device_id : ℕ
  pub device_id : ℕ
  pub func : Option ℕ

abbrev pub has_id : ℕ → Node → Bool
has_id d n = n.device_id == d

abbrev pub has_parent : ℕ → Node → Bool
has_parent p n = n.parent_device_id == p

abbrev pub is_edge : ℕ → ℕ → Node → Bool
is_edge p d n = n.parent_device_id == p && n.device_id == d

-- The callbacks that the destructors of these slots run.
unfoldable pub destroy : List (Option ℕ) → List ℕ
destroy [] = []
destroy (none ∷ fs) = destroy fs
destroy (some f ∷ fs) = f ∷ destroy fs

unfoldable pub add_child : ℕ → ℕ → Option ℕ → List Node → List Node × Bool
add_child p d on_parent_removed nodes = elim (find_if (has_id d) nodes) [
  | some n ↦ (nodes, n.parent_device_id == p)
  | none ↦
      (nodes ++ record { parent_device_id = p; device_id = d; func = on_parent_removed } ∷ [], true)
]

-- `vector::erase` moves the later nodes down by one; what it destroys is the moved-from last slot,
-- or the node itself, whose callback has been cleared.
unfoldable pub remove_child : ℕ → ℕ → List Node → List Node × Bool
remove_child p d nodes = elim (find_if (is_edge p d) nodes) [
  | none ↦ (nodes, false)
  | some n ↦ (erase_first (is_edge p d) nodes, true)
]

-- `std::remove_if`: `gaps` are the slots before the current one that hold no kept node, in order.
-- A kept node is moved into the first of them, which drops the callback that it held, and leaves
-- an empty slot. The result is the kept nodes and the slots behind them.
unfoldable pub remove_if : (Node → Bool) → List (Option ℕ) → List Node → List Node × List (Option ℕ)
remove_if pred gaps [] = ([], gaps)
remove_if pred gaps (n ∷ ns) = elim (pred n) [
  | true ↦ remove_if pred (gaps ++ n.func ∷ []) ns
  | false ↦ elim gaps [
    | [] ↦ let (kept, tail) = remove_if pred [] ns in (n ∷ kept, tail)
    | dropped ∷ rest ↦ let (kept, tail) = remove_if pred (rest ++ none ∷ []) ns in (n ∷ kept, tail)
  ]
]

-- The nodes left, the result, and the callbacks that ran.
unfoldable pub remove : ℕ → List Node → List Node × Bool × List ℕ
unfolding remove_if destroy
remove p nodes =
    let (kept, tail) = remove_if (has_parent p) [] nodes in (kept, not_empty tail, destroy tail)

unfoldable pub parent : ℕ → List Node → Option ℕ
parent d nodes = elim (find_if (has_id d) nodes) [ some n ↦ some n.parent_device_id | none ↦ none ]

unfoldable pub all_children : ℕ → List Node → List ℕ
all_children p [] = []
all_children p (n ∷ ns) =
    let rest = all_children p ns in if has_parent p n then n.device_id ∷ rest else rest
