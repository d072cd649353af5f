-- ===== src/Device/Registry/Laws.antt =====
-- Ids are fresh, and an inventory gives back what was registered.
use hhctrl_mgmt.Base.{
  ℕ, ◌+◌, ◌^◌, ◌<◌, ◌≡◌, refl, none, some, List, [], ◌∷◌, arith, All, ◌==◌, if◌then◌else◌,
}
use hhctrl_mgmt.Base.Maps.{lookup, insert, lookup-insert, lookup-erase}
use hhctrl_mgmt.Base.Outcome.{done, thrown}
use hhctrl_mgmt.Device.Registry.{register_device, deregister_device, get}

module _ {D : Type 0} where
  -- The counter has passed every id in the inventory.
  abbrev pub IsBelow : ℕ → List (ℕ × D) → Type 0
  IsBelow counter = All (λ e. e.0 < counter)

  IsBelow-fresh : (n : ℕ) (m : List (ℕ × D)) → IsBelow n m → lookup n m ≡ none
  unfolding lookup
  IsBelow-fresh n [] h = refl
  IsBelow-fresh n ((j, v) ∷ m) h = ground (arith, IsBelow-fresh n m h.1)

  pub IsBelow-suc : (n : ℕ) (m : List (ℕ × D)) → IsBelow n m → IsBelow (n + 1) m
  IsBelow-suc n [] h = tt
  IsBelow-suc n ((j, v) ∷ m) h = (omega arith, IsBelow-suc n m h.1)

  insert-IsBelow :
      (n k : ℕ) (v : D) (m : List (ℕ × D)) → k < n → IsBelow n m → IsBelow n (insert k v m)
  unfolding insert
  insert-IsBelow n k v [] l h = (l, tt)
  insert-IsBelow n k v ((j, w) ∷ m) l h = ground (arith, insert-IsBelow n k v m l h.1)

  -- Where the counter has passed every id of the inventory and does not wrap, registering a device
  -- succeeds: the device is found under the new id, no other id changes, and the counter has
  -- passed every id again.
  pub register_device_lem :
      (d : D) (counter j : ℕ) (m : List (ℕ × D))
      → IsBelow counter m
      → counter + 1 < 2 ^ 32
      → (m' : List (ℕ × D)) × (register_device d counter m ≡ done (counter, m', counter + 1))
        × (get counter m' ≡ done d)
        × (lookup j m' ≡ (if j == counter then some d else lookup j m))
        × IsBelow (counter + 1) m'
  unfolding register_device get
  register_device_lem d counter j m b h = (
    insert counter d m,
    ground (arith, IsBelow-fresh counter m b),
    ground (arith, lookup-insert counter counter d m),
    ground (arith, lookup-insert counter j d m),
    insert-IsBelow (counter + 1) counter d m (omega arith) (IsBelow-suc counter m b),
  )

  -- After `deregister_device` the device is not found; every other device still is.
  pub deregister_device_lem :
      (k j : ℕ) (m : List (ℕ × D))
      → (get k (deregister_device k m) ≡ thrown)
        × (get j (deregister_device k m) ≡ (if j == k then thrown else get j m))
  unfolding deregister_device get
  deregister_device_lem k j m =
      (ground (arith, lookup-erase k k m), ground (arith, lookup-erase k j m))
