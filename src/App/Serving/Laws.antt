-- ===== src/App/Serving/Laws.antt =====
-- What the handlers hold when the devices of the start have been announced, and when a board is refused.
use hhctrl_mgmt.Base.{
  append_assoc, append-nil, ℕ, ◌+◌, ◌≡◌, refl, Bool, true, false, Option, none, some, List, [], ◌∷◌,
  ◌++◌, map, if◌then◌else◌,
}
use hhctrl_mgmt.Base.Outcome.{Outcome, done, thrown}
use hhctrl_mgmt.Bus.Events.{whole, Spawned}
use hhctrl_mgmt.Platform.{System, DeviceType, board_type, hatch_type, temp_sensor_type}
use hhctrl_mgmt.Platform.Builder.{
  DeviceLoader, hatch_loader, ds18b20_loader, cpu_temp_sensor_loader,
}
use hhctrl_mgmt.Adapter.Handlers.{Held, Handler, hatch_created, sensor_created, board_created}
use hhctrl_mgmt.App.HomeAssistant.{EventType, created, handler_of}
use hhctrl_mgmt.App.HomeAssistant.Laws.{AreDistinct}
use hhctrl_mgmt.App.MainBoardInit.Laws.{announced}
use hhctrl_mgmt.App.Serving.{
  Adapters, Served, idle, board_event, hatch_event, sensor_event, call, serve,
}

abbrev pub is_hatch : DeviceLoader → Bool
is_hatch (hatch_loader path) = true
is_hatch _ = false

abbrev pub is_sensor : DeviceLoader → Bool
is_sensor (hatch_loader path) = false
is_sensor _ = true

-- The adapter that was made for a device, if one was.
abbrev pub made_for : {X : Type 0} → Option X → ℕ → List (Held X)
made_for none device_id = []
made_for (some a) device_id = record { device_id = device_id; adapter = a } ∷ []

-- The adapters that are made for these loaders, with ids from `first` on, by the loaders' type.
abbrev pub held :
    {X : Type 0} → (DeviceLoader → Bool) → (ℕ → Option X) → ℕ → List DeviceLoader → List (Held X)
held of_type made first [] = []
held of_type made first (loader ∷ loaders) =
    (if of_type loader then made_for (made first) first else [])
    ++ held of_type made (first + 1) loaders

-- The handler with these adapters behind its own, and their run loops started.
abbrev pub grown : {X : Type 0} → Handler X → List (Held X) → Handler X
grown h more = record {
  devices = h.devices ++ more;
  running = h.running ++ map (λ x. x.device_id) more;
}

map-append {ℓ κ} :
    {A : Type ℓ} {B : Type κ} (f : A → B) (xs ys : List A) → map f (xs ++ ys) ≡ map f xs ++ map f ys
map-append f [] ys = refl
map-append f (x ∷ xs) ys = rw (map-append f xs ys) refl

grown-grown :
    {X : Type 0} (h : Handler X) (xs ys : List (Held X))
    → grown (grown h xs) ys ≡ grown h (xs ++ ys)
grown-grown h xs ys = simp (append_assoc, map-append) refl

grown-nil : {X : Type 0} (h : Handler X) → grown h [] ≡ h
grown-nil h = simp (append-nil) refl

hatch_created-grown :
    {X : Type 0} (create : ℕ → Outcome (Option X)) (made : Option X) (d : ℕ) (h : Handler X)
    → create d ≡ done made
    → hatch_created create d h ≡ done (grown h (made_for made d))
unfolding hatch_created
hatch_created-grown create none d h e = simp (hatch_created, e, grown-nil h) refl
hatch_created-grown create (some a) d h e = simp (hatch_created, e) refl

sensor_created-grown :
    {X : Type 0} (create : ℕ → Outcome (Option X)) (made : Option X) (d : ℕ) (h : Handler X)
    → create d ≡ done made
    → sensor_created create d h ≡ done (grown h (made_for made d))
unfolding sensor_created
sensor_created-grown create none d h e = simp (sensor_created, e, grown-nil h) refl
sensor_created-grown create (some a) d h e = simp (sensor_created, e) refl

-- What is spawned for a device.
abbrev pub creation : (EventType → DeviceType → ℕ) → DeviceType → ℕ → Spawned
creation ids t d = record {
  handler = whole (handler_of t);
  event = record { event_id = ids created t; device_id = d };
}

module _ (A : Adapters) (ids : EventType → DeviceType → ℕ) (s : System) (hatch : ℕ → Option A.Hatch)
    (sensor : ℕ → Option A.Sensor) where
  -- The handlers with the adapters for these loaders behind their own.
  abbrev pub with_devices : ℕ → List DeviceLoader → Served A → Served A
  with_devices first loaders h = record h {
    hatches = grown h.hatches (held is_hatch hatch first loaders);
    temp_sensors = grown h.temp_sensors (held is_sensor sensor first loaders);
  }

  -- For each loader's device, with ids from `first` on, the creation of the adapter of its type comes to
  -- what is given for it.
  abbrev pub Makes : ℕ → List DeviceLoader → Type 0
  Makes first [] = Unit
  Makes first (hatch_loader path ∷ loaders) =
      (A.create_hatch s first ≡ done (hatch first)) × Makes (first + 1) loaders
  Makes first (ds18b20_loader path ∷ loaders) =
      (A.create_sensor s first ≡ done (sensor first)) × Makes (first + 1) loaders
  Makes first (cpu_temp_sensor_loader path ∷ loaders) =
      (A.create_sensor s first ≡ done (sensor first)) × Makes (first + 1) loaders

  module _ (distinct : AreDistinct ids) where
    call-hatch :
        (d : ℕ) (h : Served A)
        → A.create_hatch s d ≡ done (hatch d)
        → call A ids s (creation ids hatch_type d) h
          ≡ done (record h { hatches = grown h.hatches (made_for (hatch d) d) })
    unfolding call hatch_event
    call-hatch d h e =
        simp
          (
            call,
            distinct created created hatch_type hatch_type,
            hatch_created-grown (A.create_hatch s) (hatch d) d h.hatches e,
          )
          refl

    call-sensor :
        (d : ℕ) (h : Served A)
        → A.create_sensor s d ≡ done (sensor d)
        → call A ids s (creation ids temp_sensor_type d) h
          ≡ done (record h { temp_sensors = grown h.temp_sensors (made_for (sensor d) d) })
    unfolding call sensor_event
    call-sensor d h e =
        simp
          (
            call,
            distinct created created temp_sensor_type temp_sensor_type,
            sensor_created-grown (A.create_sensor s) (sensor d) d h.temp_sensors e,
          )
          refl

    serve-announced :
        (loaders : List DeviceLoader) (first : ℕ) (h : Served A)
        → Makes first loaders
        → serve A ids s (announced (ids created) first loaders) h
          ≡ done (with_devices first loaders h)
    unfolding serve announced
    serve-announced [] first h m = simp (grown-nil) refl
    serve-announced (hatch_loader path ∷ loaders) first h m =
        simp (call-hatch first h m.0, serve-announced loaders (first + 1) _ m.1, grown-grown) refl
    serve-announced (ds18b20_loader path ∷ loaders) first h m =
        simp (call-sensor first h m.0, serve-announced loaders (first + 1) _ m.1, grown-grown) refl
    serve-announced (cpu_temp_sensor_loader path ∷ loaders) first h m =
        simp (call-sensor first h m.0, serve-announced loaders (first + 1) _ m.1, grown-grown) refl

    -- The board comes first, and is made.
    pub serve-all :
        (loaders : List DeviceLoader) (b : A.Board)
        → A.create_board s 1 ≡ done (some b)
        → Makes 2 loaders
        → serve A ids s (creation ids board_type 1 ∷ announced (ids created) 2 loaders) (idle A)
          ≡ done (with_devices 2 loaders (record (idle A) { board = some b }))
    unfolding serve call board_event board_created
    serve-all loaders b e m =
        simp (distinct created created board_type board_type, e, serve-announced loaders 2 _ m) refl

  pub serve-refused :
      (cs : List Spawned)
      → AreDistinct ids
      → board_created (A.create_board s) 1 none ≡ thrown
      → serve A ids s (creation ids board_type 1 ∷ cs) (idle A) ≡ thrown
  unfolding serve call board_event
  serve-refused cs distinct e = simp (distinct created created board_type board_type, e) refl
