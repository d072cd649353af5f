-- ===== src/Poller/Devices/Changes.antt =====
-- The events that a poller publishes over a run of polls.
use hhctrl_mgmt.Base.{
  append_assoc, append-nil, ℕ, ◌≡◌, refl, Bool, false, List, [], ◌∷◌, ◌++◌, if◌then◌else◌, map,
  Bool-cases, inl, inr,
}
use hhctrl_mgmt.Base.Outcome.{Outcome, done}
use hhctrl_mgmt.Device.Registry.{get}
use hhctrl_mgmt.Poller.Devices.{Poller, poll, poll_all, update}

-- The values that differ from the one before them, the first from `before`.
abbrev pub changes : {K : Type 0} → (K → K → Bool) → K → List K → List K
changes differs before [] = []
changes differs before (x ∷ xs) =
    let rest = changes differs x xs in if differs x before then x ∷ rest else rest

-- The last value, or `before` where there is none.
abbrev pub last_of : {K : Type 0} → K → List K → K
last_of before [] = before
last_of before (x ∷ xs) = last_of x xs

-- At each poll, the device is in the inventory and what the poller reads of it is this value.
abbrev pub Samples : {D K : Type 0} → (D → Outcome K) → ℕ → List (List (ℕ × D)) → List K → Type 0
Samples current id [] [] = Unit
Samples current id [] (v ∷ vs) = ⊥
Samples current id (m ∷ ms) [] = ⊥
Samples {D} current id (m ∷ ms) (v ∷ vs) =
    ((device : D) × (get id m ≡ done device) × (current device ≡ done v)) × Samples current id ms vs

module _ {D K : Type 0} (current : D → Outcome K) (differs : K → K → Bool) where
  -- Where values that do not differ for the poller are equal, a run of polls of a device that is
  -- in the inventory and can be read at each of them returns. It publishes one event for each
  -- value that differs from the one read before it, in order, the first being compared with what
  -- the poller starts from, and the poller ends remembering the last value read.
  pub poll_all-changes :
      (p : Poller K) (inventories : List (List (ℕ × D))) (values : List K)
      → ((a b : K) → differs a b ≡ false → a ≡ b)
      → Samples current (p.device_id) inventories values
      → poll_all current differs inventories p
        ≡ done (record {
          device_id = p.device_id;
          cached = last_of p.cached values;
          published = p.published ++ map (λ v. p.device_id) (changes differs p.cached values);
        })
  unfolding poll update
  poll_all-changes p [] [] exact s = rw (append-nil p.published) refl
  poll_all-changes p [] (v ∷ vs) exact s = absurd s
  poll_all-changes p (m ∷ ms) [] exact s = absurd s
  poll_all-changes p (m ∷ ms) (v ∷ vs) exact ((device, found, read), s) =
      elim (Bool-cases (differs v p.cached)) [
        | inl e ↦
            simp
              (
                poll,
                found,
                read,
                e,
                poll_all-changes (update v p) ms vs exact s,
                append_assoc p.published (p.device_id ∷ []),
              )
              refl
        | inr e ↦
            simp (poll, found, read, e, poll_all-changes p ms vs exact s)
              (rw (exact v p.cached e) refl)
      ]
