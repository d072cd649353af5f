-- ===== src/Platform/Loading.antt =====
-- Loading the devices of a board keeps the program's tables consistent.
use mathlib.Core.Path.{subst}
use hhctrl_mgmt.Base.{
  ℕ, ◌+◌, ◌^◌, ◌<◌, ◌≤◌, ◌≡◌, refl, sym, Bool, true, none, some, List, ◌++◌, map, String, arith,
  ◌==◌, if◌then◌else◌, count_if, inl, inr,
}
use hhctrl_mgmt.Base.Outcome.{done, M, ◌>>=◌, ◌>>◌, pure}
use hhctrl_mgmt.Device.Registry.Laws.{IsBelow, IsBelow-suc, register_device_lem}
use hhctrl_mgmt.Device.Tree.{Node, parent, add_child}
use hhctrl_mgmt.Device.Tree.Laws.{IsTree, add_child_lem}
use hhctrl_mgmt.Poller.Service.{PollingService, polls, add_poller, IsValid, add_poller_lem}
use hhctrl_mgmt.Bus.Events.{Event, slots}
use hhctrl_mgmt.Bus.Events.Laws.{IsWired, spawn, published, publish_lem}
use hhctrl_mgmt.Platform.{
  System, TempSensor, ds18b20, cpu_temp_sensor, DeviceType, register_hatch, register_temp_sensor,
  poll_device, publish_event,
}
use hhctrl_mgmt.Platform.Builder.{
  DeviceLoader, hatch_loader, ds18b20_loader, cpu_temp_sensor_loader, type_of, get_path, load,
  add_to_board, handle,
}

abbrev pub path_of : DeviceLoader → String
path_of (hatch_loader path) = path
path_of (ds18b20_loader path) = path
path_of (cpu_temp_sensor_loader path) = path

-- The counter has passed every id in use.
pub record IsFresh (s : System) : Type 0 where
  pub hatches : IsBelow s.counter s.hatches
  pub temp_sensors : IsBelow s.counter s.temp_sensors
  pub parentless : (d : ℕ) → s.counter ≤ d → parent d s.dtree ≡ none
  pub unpolled : (d : ℕ) → s.counter ≤ d → count_if (polls d) s.polling_service.pollers ≡ 0

-- Each table is well formed.
pub record IsSystem (s : System) : Type 0 where
  pub fresh : IsFresh s
  pub tree : IsTree s.dtree
  pub service : IsValid s.polling_service
  pub wired : IsWired s.bus

-- The tables in which a registered device shows up after its `load`.
record IsLoaded (s s' : System) : Type 0 where
  counter : s'.counter ≡ s.counter + 1
  hatches : IsBelow (s.counter + 1) s'.hatches
  temp_sensors : IsBelow (s.counter + 1) s'.temp_sensors
  boards : s'.boards ≡ s.boards
  dtree : s'.dtree ≡ s.dtree
  store : s'.hw_identity_store ≡ s.hw_identity_store
  bus : s'.bus ≡ s.bus
  spawned : s'.spawned ≡ s.spawned
  service : IsValid s'.polling_service
  polled :
      (d : ℕ)
      → count_if (polls d) s'.polling_service.pollers
        ≡ (if d == s.counter then 1 else count_if (polls d) s.polling_service.pollers)

-- A registration, and a poller for the device.
abbrev polled_at : ℕ → M System ℕ → M System ℕ
polled_at interval register = do
  device_id ← register
  poll_device device_id interval
  pure device_id

module _ (exists : String → Bool) where
  add_poller-fresh :
      (interval : ℕ) (s : System)
      → IsSystem s
      → (p : PollingService) × (add_poller s.counter interval s.polling_service ≡ done p)
        × IsValid p
        × ((d : ℕ)
            → count_if (polls d) p.pollers
              ≡ (if d == s.counter then 1 else count_if (polls d) s.polling_service.pollers))
  add_poller-fresh interval s i =
      elim (add_poller_lem s.counter interval s.polling_service i.service) [
        | inl found ↦ found.1
        | inr taken ↦ absurd (taken.0 (i.fresh.unpolled s.counter (omega arith)))
      ]

  hatch_polled :
      (path : String) (s : System)
      → IsSystem s
      → s.counter + 1 < 2 ^ 32
      → (s' : System) × (polled_at 2000 (register_hatch path) s ≡ done (s.counter, s'))
        × IsLoaded s s'
  unfolding register_hatch poll_device
  hatch_polled path s i h =
      let (devices, registered, got, others, below) =
        register_device_lem path s.counter s.counter s.hatches i.fresh.hatches h in
      let (p, added, valid, polled) = add_poller-fresh 2000 s i in
      (
        record s { hatches = devices; counter = s.counter + 1; polling_service = p },
        simp (register_hatch, poll_device, registered, added) refl,
        record {
          counter = refl;
          hatches = below;
          temp_sensors = IsBelow-suc s.counter s.temp_sensors i.fresh.temp_sensors;
          boards = refl;
          dtree = refl;
          store = refl;
          bus = refl;
          spawned = refl;
          service = valid;
          polled = polled;
        },
      )

  sensor_polled :
      (sensor : TempSensor) (interval : ℕ) (s : System)
      → IsSystem s
      → s.counter + 1 < 2 ^ 32
      → (s' : System) × (polled_at interval (register_temp_sensor sensor) s ≡ done (s.counter, s'))
        × IsLoaded s s'
  unfolding register_temp_sensor poll_device
  sensor_polled sensor interval s i h =
      let (devices, registered, got, others, below) =
        register_device_lem sensor s.counter s.counter s.temp_sensors i.fresh.temp_sensors h in
      let (p, added, valid, polled) = add_poller-fresh interval s i in
      (
        record s { temp_sensors = devices; counter = s.counter + 1; polling_service = p },
        simp (register_temp_sensor, poll_device, registered, added) refl,
        record {
          counter = refl;
          hatches = IsBelow-suc s.counter s.hatches i.fresh.hatches;
          temp_sensors = below;
          boards = refl;
          dtree = refl;
          store = refl;
          bus = refl;
          spawned = refl;
          service = valid;
          polled = polled;
        },
      )

  load-polled :
      (loader : DeviceLoader) (s : System)
      → exists (path_of loader) ≡ true
      → IsSystem s
      → s.counter + 1 < 2 ^ 32
      → (s' : System) × (load exists loader s ≡ done (s.counter, s')) × IsLoaded s s'
  unfolding load get_path
  load-polled (hatch_loader path) s e i h =
      let (s', loaded, tables) = hatch_polled path s i h in
      (s', simp (load, get_path, e) loaded, tables)
  load-polled (ds18b20_loader path) s e i h =
      let (s', loaded, tables) = sensor_polled (ds18b20 path) 10000 s i h in
      (s', simp (load, get_path, e) loaded, tables)
  load-polled (cpu_temp_sensor_loader path) s e i h =
      let (s', loaded, tables) = sensor_polled (cpu_temp_sensor path) 2000 s i h in
      (s', simp (load, get_path, e) loaded, tables)

abbrev pub announcement : (DeviceType → ℕ) → DeviceLoader → ℕ → Event
announcement created loader device_id = record {
  event_id = created (type_of loader);
  device_id = device_id;
}

-- What one call of `handle` changes.
pub record IsHandled (created : DeviceType → ℕ) (board : ℕ) (loader : DeviceLoader) (s s' : System)
    : Type 0 where
  pub system : IsSystem s'
  pub counter : s'.counter ≡ s.counter + 1
  pub boards : s'.boards ≡ s.boards
  pub store : s'.hw_identity_store ≡ s.hw_identity_store
  pub parents :
      (d : ℕ) → parent d s'.dtree ≡ (if d == s.counter then some board else parent d s.dtree)
  pub polled :
      (d : ℕ)
      → count_if (polls d) s'.polling_service.pollers
        ≡ (if d == s.counter then 1 else count_if (polls d) s.polling_service.pollers)
  pub bus : s'.bus ≡ published (announcement created loader s.counter) s.bus
  pub spawned :
      s'.spawned
      ≡ s.spawned
        ++ map
            (spawn (announcement created loader s.counter))
            (slots (created (type_of loader)) s.bus)

add_child-fresh :
    (board d : ℕ) (nodes : List Node)
    → parent d nodes ≡ none
    → (add_child board d none nodes).1 ≡ true
unfolding add_child parent
add_child-fresh board d nodes h = ground arith

module _ (exists : String → Bool) (created : DeviceType → ℕ) where
  pub handle-lem :
      (board : ℕ) (loader : DeviceLoader) (s : System)
      → exists (path_of loader) ≡ true
      → IsSystem s
      → s.counter + 1 < 2 ^ 32
      → (s' : System) × (handle exists created board loader s ≡ done (true, s'))
        × IsHandled created board loader s s'
  unfolding handle add_to_board publish_event
  handle-lem board loader s e i h =
      let (s₁, loaded, tables) = load-polled exists loader s e i h in
      let event : Event = announcement created loader s.counter in
      let (sent, wired, later) = publish_lem event s.bus 0 i.wired in
      let free : (parent s.counter s.dtree ≡ none) = i.fresh.parentless s.counter (omega arith) in
      let added : ((add_child board s.counter none s.dtree).1 ≡ true) =
        add_child-fresh board s.counter s.dtree free in
      let placed : (parent s.counter (add_child board s.counter none s.dtree).0 ≡ some board) =
        (add_child_lem board s.counter s.counter none s.dtree i.tree).1.0 added in
      let parents : ((d : ℕ)
          → parent d (add_child board s.counter none s.dtree).0
            ≡ (if d == s.counter then some board else parent d s.dtree)) =
        λ d. ground (arith, placed, (add_child_lem board s.counter d none s.dtree i.tree).2) in
      (
        record s₁ {
          dtree = (add_child board s.counter none s.dtree).0;
          bus = published event s.bus;
          spawned = s.spawned ++ map (spawn event) (slots event.event_id s.bus);
        },
        simp
            (
              handle, add_to_board, publish_event, loaded, tables.dtree, tables.bus, tables.spawned,
              sent,
            )
            refl,
        record {
          system = record {
            fresh = record {
              hatches = subst (λ c. IsBelow c s₁.hatches) (sym tables.counter) tables.hatches;
              temp_sensors =
                  subst (λ c. IsBelow c s₁.temp_sensors) (sym tables.counter) tables.temp_sensors;
              parentless =
                  λ d older. ground (arith, parents d, tables.counter, i.fresh.parentless d);
              unpolled =
                  λ d older. ground (arith, tables.polled d, tables.counter, i.fresh.unpolled d);
            };
            tree = (add_child_lem board s.counter s.counter none s.dtree i.tree).0;
            service = tables.service;
            wired = wired;
          };
          counter = tables.counter;
          boards = tables.boards;
          store = tables.store;
          parents = parents;
          polled = tables.polled;
          bus = refl;
          spawned = refl;
        },
      )
