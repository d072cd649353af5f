-- ===== src/App/MainBoardInit/Reach.antt =====
-- The system as it runs: devices are loaded and events published, in any order.
use mathlib.Core.Path.{subst}
use Prim.Native.String.{◌++◌}
use text.Mathlib.TextLemmas.{append_cancel_left}
use hhctrl_mgmt.Base.{
  ℕ, suc, ◌+◌, ◌^◌, ◌<◌, ◌≡◌, ◌↔◌, refl, sym, ap, Bool, false, none, some, String, arith,
  Bool-cases, inl, inr, ◌++◌ as append, map,
}
use hhctrl_mgmt.Base.Maps.{lookup}
use hhctrl_mgmt.Base.Outcome.{done, thrown}
use hhctrl_mgmt.Board.Hardware.{HardwareIdentity}
use hhctrl_mgmt.Adapter.Identity.{DeviceIdentity, identity, get_hardware_identity, get_unique_id}
use hhctrl_mgmt.Bus.Events.{Event, slots}
use hhctrl_mgmt.Bus.Events.Laws.{spawn, published, publish_lem}
use hhctrl_mgmt.Platform.{System, DeviceType, publish_event}
use hhctrl_mgmt.Platform.Builder.{
  DeviceLoader, hatch_loader, ds18b20_loader, cpu_temp_sensor_loader, get_path, load, handle,
}
use hhctrl_mgmt.Platform.Loading.{path_of, handle-lem}
use hhctrl_mgmt.App.MainBoardInit.Laws.{IsBoarded, handled-IsBoarded}

module _ (exists : String → Bool) (events : DeviceType → ℕ) (board : ℕ) where
  -- From the first state to the second, with this many devices loaded on the way.
  pub data Reach (s : System) : ℕ → System → Type 0 where
    start : Reach s 0 s
    loaded :
        {n : ℕ} {s₁ s₂ : System} {result : Bool} (loader : DeviceLoader)
        → Reach s n s₁
        → handle exists events board loader s₁ ≡ done (result, s₂)
        → Reach s (suc n) s₂
    published_event :
        {n : ℕ} {s₁ s₂ : System} (event : Event)
        → Reach s n s₁
        → publish_event event s₁ ≡ done (tt, s₂)
        → Reach s n s₂

  missing-throws :
      (loader : DeviceLoader) (s : System)
      → exists (path_of loader) ≡ false
      → handle exists events board loader s ≡ thrown
  unfolding handle load get_path
  missing-throws (hatch_loader path) s e = simp (handle, e) refl
  missing-throws (ds18b20_loader path) s e = simp (handle, e) refl
  missing-throws (cpu_temp_sensor_loader path) s e = simp (handle, e) refl

  after_load :
      (hw : HardwareIdentity) (loader : DeviceLoader) (result : Bool) (s s' : System)
      → IsBoarded board hw s
      → s.counter + 1 < 2 ^ 32
      → handle exists events board loader s ≡ done (result, s')
      → IsBoarded board hw s' × (s'.counter ≡ s.counter + 1)
  after_load hw loader result s s' b h e = elim (Bool-cases (exists (path_of loader))) [
    | inr missing ↦ absurd (cc (e, missing-throws loader s missing))
    | inl found ↦
        let (s₁, same, handled) = handle-lem exists events board loader s found b.system h in
        let reached : (s₁ ≡ s') = cc (e, same) in
        (
          subst (λ x. IsBoarded board hw x) reached
              (handled-IsBoarded events board hw loader s s₁ b handled),
          subst (λ x. x.counter ≡ s.counter + 1) reached handled.counter,
        )
  ]

  after_publish :
      (hw : HardwareIdentity) (event : Event) (s s' : System)
      → IsBoarded board hw s
      → publish_event event s ≡ done (tt, s')
      → IsBoarded board hw s' × (s'.counter ≡ s.counter)
  unfolding publish_event
  after_publish hw event s s' b e =
      let (sent, wired, later) = publish_lem event s.bus 0 b.system.wired in
      let reached : (record s {
        bus = published event s.bus;
        spawned = append s.spawned (map (spawn event) (slots event.event_id s.bus));
      }
          ≡ s') =
        cc (e, sent) in
      (
        subst (λ x. IsBoarded board hw x) reached
            (record {
              system = record {
                fresh = record {
                  hatches = b.system.fresh.hatches;
                  temp_sensors = b.system.fresh.temp_sensors;
                  parentless = b.system.fresh.parentless;
                  unpolled = b.system.fresh.unpolled;
                };
                tree = b.system.tree;
                service = b.system.service;
                wired = wired;
              };
              older = b.older;
              identity = b.identity;
              parents = b.parents;
              polled = b.polled;
            }),
        ap (λ x. x.counter) (sym reached),
      )

  -- Where the tables are well formed and each device has the board as its parent and one poller, and ids
  -- do not run out: this is so in every state that is reached by loading devices and publishing
  -- events, in any order, as long as the calls return.
  pub Reach-IsBoarded :
      (hw : HardwareIdentity) {s : System} {n : ℕ} {s' : System}
      → Reach s n s'
      → IsBoarded board hw s
      → s.counter + n < 2 ^ 32
      → IsBoarded board hw s' × (s'.counter ≡ s.counter + n)
  Reach-IsBoarded hw start b h = (b, omega arith)
  Reach-IsBoarded hw (loaded loader r e) b h =
      let before = Reach-IsBoarded hw r b (omega (arith, h)) in
      let step = after_load hw loader _ _ _ before.0 (omega (arith, before.1, h)) e in
      (step.0, omega (arith, step.1, before.1))
  Reach-IsBoarded hw (published_event event r e) b h =
      let before = Reach-IsBoarded hw r b h in
      let step = after_publish hw event _ _ before.0 e in (step.0, omega (arith, step.1, before.1))

unique_id_of :
    (format : ℕ → String) (d e : ℕ) (i : DeviceIdentity)
    → ((a b : ℕ) → format a ≡ format b → a ≡ b)
    → (get_unique_id format d i ≡ get_unique_id format e i) ↔ (d ≡ e)
unfolding get_unique_id
unique_id_of format d e i distinct = (
  λ same. distinct d e (
      append_cancel_left "_" (format d) (format e)
        (append_cancel_left i.serial_number ("_" ++ format d) ("_" ++ format e) same)),
  λ same. ap (λ x. get_unique_id format x i) same,
)

abbrev identity_of : HardwareIdentity → DeviceIdentity
identity_of hw = record {
  manufacturer = hw.manufacturer;
  model = hw.model;
  serial_number = hw.serial_number;
  hw_revision = hw.revision;
  sw_revision = "Sw rev default";
}

-- Two devices that were loaded under the board have the identity of the board, and with it the same
-- unique id, from which the names of their entities are made, only if they are the same device,
-- since numbers are written differently.
pub IsBoarded-identity :
    (board d e : ℕ) (hw : HardwareIdentity) (s : System) (format : ℕ → String)
    → ((a b : ℕ) → format a ≡ format b → a ≡ b)
    → IsBoarded board hw s
    → board < d
    → d < s.counter
    → board < e
    → e < s.counter
    → (i : DeviceIdentity) × (identity s.hw_identity_store s.dtree board ≡ done i)
      × (identity s.hw_identity_store s.dtree d ≡ done i)
      × (identity s.hw_identity_store s.dtree e ≡ done i)
      × ((get_unique_id format d i ≡ get_unique_id format e i) ↔ (d ≡ e))
unfolding identity get_hardware_identity
IsBoarded-identity board d e hw s format distinct b newer known newer' known' =
    let own : (lookup d s.hw_identity_store ≡ none) = ground (arith, b.identity d, newer) in
    let own' : (lookup e s.hw_identity_store ≡ none) = ground (arith, b.identity e, newer') in
    let of_board : (lookup board s.hw_identity_store ≡ some hw) =
      ground (arith, b.identity board) in
    (
      identity_of hw,
      simp (identity, get_hardware_identity, of_board) refl,
      simp (identity, get_hardware_identity, own, of_board, b.parents d newer known) refl,
      simp (identity, get_hardware_identity, own', of_board, b.parents e newer' known') refl,
      unique_id_of format d e (identity_of hw) distinct,
    )
