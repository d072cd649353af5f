-- ===== src/Device/Tree/Callbacks.antt =====
-- Which callbacks `DeviceTree::remove` runs: `std::erase_if` moves the kept nodes into the slots of
-- the removed ones, and a slot that is overwritten loses its callback without a call.
use hhctrl_mgmt.Base.{
  ℕ, zero, suc, ◌≡◌, refl, ◌∙◌, ap, Bool, true, false, Option, none, some, List, [], ◌∷◌, ◌++◌, map,
  arith, length, drop, All,
}
use mathlib.Core.List.{append-nil, append_assoc}
use hhctrl_mgmt.Device.Tree.{Node, has_parent, destroy, remove_if, remove}

abbrev pub funcs : List Node → List (Option ℕ)
funcs = map (λ n. n.func)

destroy-drop-none :
    (k : ℕ) (fs : List (Option ℕ)) → destroy (drop k (fs ++ none ∷ [])) ≡ destroy (drop k fs)
unfolding destroy
destroy-drop-none zero [] = refl
destroy-drop-none zero (none ∷ fs) = destroy-drop-none zero fs
destroy-drop-none zero (some f ∷ fs) = ap (◌∷◌ f) (destroy-drop-none zero fs)
destroy-drop-none (suc zero) [] = refl
destroy-drop-none (suc (suc k)) [] = refl
destroy-drop-none (suc k) (f ∷ fs) = destroy-drop-none k fs

drop_nil : (k : ℕ) → drop k (funcs []) ≡ []
drop_nil zero = refl
drop_nil (suc k) = refl

kept_tail :
    (p : Node → Bool) (gaps : List (Option ℕ)) (ns : List Node)
    → All (λ n. p n ≡ false) ns
    → destroy (remove_if p gaps ns).1 ≡ destroy (drop (length ns) gaps)
unfolding remove_if
kept_tail p gaps [] h = refl
kept_tail p [] (n ∷ ns) h = ground (arith, kept_tail p [] ns h.1, drop_nil (length ns), h.0)
kept_tail p (g ∷ gs) (n ∷ ns) h =
    ground (arith, kept_tail p (gs ++ none ∷ []) ns h.1, destroy-drop-none (length ns) gs, h.0)

removed_gaps :
    (p : Node → Bool) (gaps : List (Option ℕ)) (rs ns : List Node)
    → All (λ n. p n ≡ true) rs
    → remove_if p gaps (rs ++ ns) ≡ remove_if p (gaps ++ funcs rs) ns
unfolding remove_if
removed_gaps p gaps [] ns h = rw append-nil
removed_gaps p gaps (r ∷ rs) ns h =
    rw (h.0, remove_if) (removed_gaps p (gaps ++ r.func ∷ []) rs ns h.1 ∙ rw append_assoc)

kept_front :
    (p : Node → Bool) (ks ns : List Node)
    → All (λ n. p n ≡ false) ks
    → (remove_if p [] (ks ++ ns)).1 ≡ (remove_if p [] ns).1
unfolding remove_if
kept_front p [] ns h = refl
kept_front p (k ∷ ks) ns h = rw (h.0, remove_if) (kept_front p ks ns h.1)

-- When the children of `p` stand next to one another, between nodes that are none of its children,
-- `remove` runs their callbacks in order, but for the first ones: as many as nodes follow them are
-- dropped without a call.
pub remove_callbacks :
    (p : ℕ) (before children behind : List Node)
    → All (λ n. has_parent p n ≡ false) before
    → All (λ n. has_parent p n ≡ true) children
    → All (λ n. has_parent p n ≡ false) behind
    → (remove p (before ++ (children ++ behind))).2
      ≡ destroy (drop (length behind) (funcs children))
unfolding remove
remove_callbacks p before children behind hb hc ha =
    ap destroy (kept_front (has_parent p) before (children ++ behind) hb)
    ∙ ap (λ r. destroy (r.1)) (removed_gaps (has_parent p) [] children behind hc)
    ∙ kept_tail (has_parent p) (funcs children) behind ha
