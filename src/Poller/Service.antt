-- ===== src/Poller/Service.antt =====
-- `PollingService` of src/poller/polling_service.cpp. The executor is not modelled: a poller that was
-- started is one whose loop runs.
use hhctrl_mgmt.Base.{
  ℕ, ◌≡◌, refl, Bool, not, List, [], ◌∷◌, ◌++◌, ◌==◌, if◌then◌else◌, count_if, arith, ==_iff,
  Bool-cases, inl, inr, ◌⊎◌, ◌≢◌, ap, ◌+◌,
}
use hhctrl_mgmt.Base.Outcome.{Outcome, done, thrown, stuck, M, after}

-- `PollingService::Poller`.
pub record Poller : Type 0 where
  pub device_id : ℕ
  pub interval : ℕ

pub record PollingService : Type 0 where
  pub pollers : List Poller
  -- The pollers whose loop runs.
  pub started : List Poller

abbrev pub polls : ℕ → Poller → Bool
polls device_id p = p.device_id == device_id

unfoldable pub start_poller : Poller → PollingService → PollingService
start_poller p s = record s { started = s.started ++ (p ∷ []) }

unfoldable pub add_poller : ℕ → ℕ → PollingService → Outcome PollingService
unfolding start_poller
add_poller device_id interval s =
    if not (count_if (polls device_id) s.pollers == 0)
    then thrown
    else let p : Poller = record { device_id = device_id; interval = interval } in
      done (start_poller p (record s { pollers = s.pollers ++ (p ∷ []) }))

-- How a wait on the poller's timer ends.
pub data Wait : Type 0 where
  expired cancelled : Wait

-- The loop of a started poller, over the waits that have ended so far. `async_wait` is not given
-- `error_code`, so that a cancelled wait throws.
unfoldable pub poll_loop : {S : Type 0} → M S (Unit {0}) → List Wait → M S (Unit {0})
poll_loop poll [] s = done (tt, s)
poll_loop poll (cancelled ∷ waits) s = thrown
poll_loop poll (expired ∷ waits) s = after (poll s) λ r. poll_loop poll waits r.1

after_thrown :
    {A B : Type 0} (o : Outcome A) (f g : A → Outcome B) (b : B)
    → ((a : A) → f a ≡ done b → g a ≡ thrown)
    → after o f ≡ done b
    → after o g ≡ thrown
after_thrown (done a) f g b k h = k a h
after_thrown thrown f g b k h = refl
after_thrown stuck f g b k h = cc h

-- Where the polls before it return, a cancelled wait ends the loop by an exception.
poll_loop_cancelled :
    {S : Type 0} (poll : M S (Unit {0})) (before rest : List Wait) (s s' : S)
    → poll_loop poll before s ≡ done (tt, s')
    → poll_loop poll (before ++ (cancelled ∷ rest)) s ≡ thrown
unfolding poll_loop
poll_loop_cancelled poll [] rest s s' h = refl
poll_loop_cancelled poll (cancelled ∷ before) rest s s' h = refl
poll_loop_cancelled poll (expired ∷ before) rest s s' h =
    after_thrown (poll s) _ _ (tt, s') (λ r e. poll_loop_cancelled poll before rest r.1 s' e) h

-- No two pollers poll the same device.
abbrev pub HasUniqueDevices : List Poller → Type 0
HasUniqueDevices [] = Unit
HasUniqueDevices (p ∷ ps) = (count_if (polls p.device_id) ps ≡ 0) × HasUniqueDevices ps

-- Each poller's loop runs, and no device has two.
pub record IsValid (s : PollingService) : Type 0 where
  pub unique : HasUniqueDevices s.pollers
  pub started : s.started ≡ s.pollers

count_if-append :
    (id : ℕ) (p : Poller) (ps : List Poller)
    → count_if (polls id) (ps ++ (p ∷ []))
      ≡ (if polls id p then count_if (polls id) ps + 1 else count_if (polls id) ps)
count_if-append id p [] = ground arith
count_if-append id p (q ∷ ps) = ground (arith, count_if-append id p ps)

append-HasUniqueDevices :
    (p : Poller) (ps : List Poller)
    → count_if (polls p.device_id) ps ≡ 0
    → HasUniqueDevices ps
    → HasUniqueDevices (ps ++ (p ∷ []))
append-HasUniqueDevices p [] h u = (refl, tt)
append-HasUniqueDevices p (q ∷ ps) h u = (
  ground (
    arith,
    h,
    u.0,
    ==_iff p.device_id q.device_id,
    ==_iff q.device_id p.device_id,
    count_if-append q.device_id p ps,
  ),
  append-HasUniqueDevices p ps (ground (arith, h)) u.1,
)

-- Where each poller runs and no device has two, adding a poller for a device without one returns: each
-- poller then runs, no device has two, this device has one, and the others have as many as before.
-- Adding one for a device that has one throws.
pub add_poller_lem :
    (device_id interval : ℕ) (s : PollingService)
    → IsValid s
    → ((count_if (polls device_id) s.pollers ≡ 0)
        × ((s' : PollingService) × (add_poller device_id interval s ≡ done s')
            × IsValid s'
            × ((id : ℕ)
                → count_if (polls id) s'.pollers
                  ≡ (if id == device_id then 1 else count_if (polls id) s.pollers))))
      ⊎ ((count_if (polls device_id) s.pollers ≢ 0) × (add_poller device_id interval s ≡ thrown))
unfolding add_poller start_poller
add_poller_lem device_id interval s v =
    elim (Bool-cases (count_if (polls device_id) s.pollers == 0)) [
      | inl e ↦
          let p : Poller = record { device_id = device_id; interval = interval } in
          let free : (count_if (polls device_id) s.pollers ≡ 0) = ground (arith, e) in
          inl (
            free,
            (
              record { pollers = s.pollers ++ (p ∷ []); started = s.started ++ (p ∷ []) },
              simp (add_poller, e) refl,
              record {
                unique = append-HasUniqueDevices p s.pollers free v.unique;
                started = ap (λ ps. ps ++ (p ∷ [])) v.started;
              },
              λ id. ground (
                arith,
                free,
                ==_iff id device_id,
                ==_iff device_id id,
                count_if-append id p s.pollers,
              ),
            ),
          )
      | inr e ↦ inr (ground (arith, e), simp (add_poller, e) refl)
    ]
