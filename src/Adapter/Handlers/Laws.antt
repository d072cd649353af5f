-- ===== src/Adapter/Handlers/Laws.antt =====
-- Which adapter is synchronised, and what becomes of a hatch whose entity could not be created.
use hhctrl_mgmt.Base.{
  ℕ, ◌+◌, ◌≡◌, refl, true, false, Option, none, some, List, [], ◌∷◌, ◌++◌, ◌==◌, All, false,
  erase_if, count_if, arith, ==_refl,
}
use hhctrl_mgmt.Base.Outcome.{Outcome, done, thrown, after, after-after}
use hhctrl_mgmt.Adapter.Handlers.{
  Held, Handler, is_device, sync_first, hatch_created, hatch_removed, sensor_created,
  sensor_removed,
}

module _ {A : Type 0} where
  pub sync_first-found :
      (sync : A → Outcome A) (id : ℕ) (before later : List (Held A)) (held : Held A)
      → All (λ x. is_device id x ≡ false) before
      → held.device_id ≡ id
      → sync_first sync id (before ++ held ∷ later)
        ≡ after (sync held.adapter) (λ a. done (before ++ record held { adapter = a } ∷ later))
  sync_first-found sync id [] later held others e =
      let hit : (is_device id held ≡ true) = ground (arith, e) in simp (hit) refl
  sync_first-found sync id (x ∷ before) later held others e =
      simp (others.0, sync_first-found sync id before later held others.1 e, after-after) refl

  erase_if-append :
      (id : ℕ) (held : Held A) (devices : List (Held A))
      → (id == held.device_id) ≡ true
      → count_if (is_device id) devices ≡ 0
      → erase_if (is_device id) (devices ++ (held ∷ [])) ≡ devices
  erase_if-append id held [] same absent = ground (arith, same)
  erase_if-append id held (d ∷ devices) same absent =
      ground (arith, same, absent, erase_if-append id held devices)

  count_if-append :
      (id : ℕ) (held : Held A) (devices : List (Held A))
      → (id == held.device_id) ≡ true
      → count_if (is_device id) (devices ++ (held ∷ [])) ≡ count_if (is_device id) devices + 1
  count_if-append id held [] same = ground (arith, same)
  count_if-append id held (d ∷ devices) same = ground (arith, same, count_if-append id held devices)

  erase_if-absent :
      (id : ℕ) (devices : List (Held A))
      → count_if (is_device id) devices ≡ 0
      → erase_if (is_device id) devices ≡ devices
  erase_if-absent id [] absent = refl
  erase_if-absent id (d ∷ devices) absent = ground (arith, absent, erase_if-absent id devices)

  -- For a device that the handler does not hold and whose entity can be created: created and then
  -- removed, the devices are as they were, with the handlers of hatches and of sensors alike.
  removed-created_made :
      (create : ℕ → Outcome (Option A)) (id : ℕ) (h : Handler A) (a : A)
      → count_if (is_device id) h.devices ≡ 0
      → create id ≡ done (some a)
      → (after (hatch_created create id h) (hatch_removed id)
          ≡ done (record h { running = h.running ++ (id ∷ []) }))
        × (after (sensor_created create id h) (sensor_removed id)
            ≡ done (record h { running = h.running ++ (id ∷ []) }))
  unfolding hatch_created hatch_removed sensor_created sensor_removed
  removed-created_made create id h a absent made =
      let held : Held A = record { device_id = id; adapter = a } in
      let one : ((count_if (is_device id) (h.devices ++ (held ∷ [])) == 0) ≡ false) =
        ground (arith, count_if-append id held h.devices (==_refl id)) in
      let rest : (erase_if (is_device id) (h.devices ++ (held ∷ [])) ≡ h.devices) =
        erase_if-append id held h.devices (==_refl id) absent in
      (
        simp (hatch_created, hatch_removed, made, one, rest) refl,
        simp (sensor_created, sensor_removed, made, rest) refl,
      )

  removed-created_failed :
      (create : ℕ → Outcome (Option A)) (id : ℕ) (h : Handler A)
      → count_if (is_device id) h.devices ≡ 0
      → create id ≡ done none
      → (after (hatch_created create id h) (hatch_removed id) ≡ thrown)
        × (after (sensor_created create id h) (sensor_removed id) ≡ done h)
  unfolding hatch_created hatch_removed sensor_created sensor_removed
  removed-created_failed create id h absent failed =
      let none_left : ((count_if (is_device id) h.devices == 0) ≡ true) = ground (arith, absent) in
      (
        simp (hatch_created, hatch_removed, failed, none_left) refl,
        simp (sensor_created, sensor_removed, failed, erase_if-absent id h.devices absent) refl,
      )

  -- For a device that the handler does not hold: if its entity can be created, then after it was created
  -- and removed the handler of hatches and the one of sensors hold what they held, but its run loop,
  -- which was started, is still running. If it cannot be created, the handler of hatches throws at
  -- the removal, and the one of sensors is as it was.
  pub removed-created :
      (create : ℕ → Outcome (Option A)) (id : ℕ) (h : Handler A) (made : Option A)
      → count_if (is_device id) h.devices ≡ 0
      → create id ≡ done made
      → (after (hatch_created create id h) (hatch_removed id) ≡ elim made [
        | none ↦ thrown
        | some a ↦ done (record h { running = h.running ++ (id ∷ []) })
      ])
        × (after (sensor_created create id h) (sensor_removed id) ≡ elim made [
          | none ↦ done h
          | some a ↦ done (record h { running = h.running ++ (id ∷ []) })
        ])
  removed-created create id h none absent failed = removed-created_failed create id h absent failed
  removed-created create id h (some a) absent made = removed-created_made create id h a absent made
