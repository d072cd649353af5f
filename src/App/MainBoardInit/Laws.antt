-- ===== src/App/MainBoardInit/Laws.antt =====
-- The start of the program gives each device its place: a parent, a poller, an identity and an event.
use hhctrl_mgmt.Base.{
  append_assoc, append-nil, ℕ, ◌+◌, ◌^◌, ◌<◌, ◌≤◌, ◌≡◌, refl, sym, ◌∙◌, Bool, true, none, some,
  List, [], ◌∷◌, ◌++◌, String, arith, ◌==◌, if◌then◌else◌, count_if, All, length,
}
use mathlib.Core.Path.{subst}
use hhctrl_mgmt.Base.Maps.{lookup}
use hhctrl_mgmt.Base.Outcome.{done}
use hhctrl_mgmt.Board.Hardware.{HardwareIdentity}
use hhctrl_mgmt.Device.Tree.{parent}
use hhctrl_mgmt.Poller.Service.{polls}
use hhctrl_mgmt.Bus.Events.{whole, Bus, Event, Spawned, slots}
use hhctrl_mgmt.Bus.Events.Laws.{IsWired, published, publish_lem}
use hhctrl_mgmt.Platform.{System, DeviceType}
use hhctrl_mgmt.Platform.Builder.{DeviceLoader, type_of}
use hhctrl_mgmt.Platform.Loading.{path_of, IsSystem, announcement, IsHandled, handle-lem}
use hhctrl_mgmt.App.HomeAssistant.{handler_of}
use hhctrl_mgmt.App.HomeAssistant.Laws.{slot}
use hhctrl_mgmt.App.MainBoardInit.{load_all}

-- Each table is well formed, the board alone has an identity of its own, every device that was
-- registered after the board has the board as its parent and is polled by one poller.
pub record IsBoarded (board : ℕ) (hw : HardwareIdentity) (s : System) : Type 0 where
  pub system : IsSystem s
  pub older : board < s.counter
  pub identity : (d : ℕ) → lookup d s.hw_identity_store ≡ (if d == board then some hw else none)
  pub parents : (d : ℕ) → board < d → d < s.counter → parent d s.dtree ≡ some board
  pub polled :
      (d : ℕ) → board ≤ d → d < s.counter → count_if (polls d) s.polling_service.pollers ≡ 1

pub handled-IsBoarded :
    (events : DeviceType → ℕ) (board : ℕ) (hw : HardwareIdentity) (loader : DeviceLoader)
    (s s' : System)
    → IsBoarded board hw s
    → IsHandled events board loader s s'
    → IsBoarded board hw s'
handled-IsBoarded events board hw loader s s' b h = record {
  system = h.system;
  older = omega (arith, b.older, h.counter);
  identity = λ d. rw (h.store) (b.identity d);
  parents = λ d newer known. ground (arith, h.parents d, h.counter, b.parents d);
  polled = λ d newer known. ground (arith, h.polled d, h.counter, b.polled d);
}

-- Each device type's creation is heard by its handler alone.
abbrev pub IsServed : (DeviceType → ℕ) → Bus → Type 0
IsServed events bus = (t : DeviceType) → slots (events t) bus ≡ slot (events t) (handler_of t) ∷ []

-- What the bus spawns for the devices of these loaders, with ids from `first` on.
unfoldable pub announced : (DeviceType → ℕ) → ℕ → List DeviceLoader → List Spawned
announced events first [] = []
announced events first (loader ∷ loaders) =
    record {
      handler = whole (handler_of (type_of loader));
      event = announcement events loader first;
    }
    ∷ announced events (first + 1) loaders

pub published-IsServed :
    (events : DeviceType → ℕ) (event : Event) (bus : Bus)
    → IsWired bus
    → IsServed events bus
    → IsServed events (published event bus)
published-IsServed events event bus w h t =
    let at_t = (publish_lem event bus (events t) w).2 in ground (arith, at_t, h t)

module _ (exists : String → Bool) (events : DeviceType → ℕ) where
  -- Where each loader's path exists, loading the devices returns, and gives each of them its place.
  pub load_all-IsBoarded :
      (board : ℕ) (hw : HardwareIdentity) (loaders : List DeviceLoader) (s : System)
      → All (λ l. exists (path_of l) ≡ true) loaders
      → IsBoarded board hw s
      → IsServed events s.bus
      → s.counter + length loaders < 2 ^ 32
      → (s' : System) × (load_all exists events board loaders s ≡ done (tt, s'))
        × IsBoarded board hw s'
        × (s'.counter ≡ s.counter + length loaders)
        × (s'.spawned ≡ s.spawned ++ announced events s.counter loaders)
        × (s'.boards ≡ s.boards)
  unfolding load_all announced
  load_all-IsBoarded board hw [] s e b w h =
      (s, refl, b, omega arith, sym (append-nil s.spawned), refl)
  load_all-IsBoarded board hw (loader ∷ loaders) s e b w h =
      let (s₁, loaded, handled) =
        handle-lem exists events board loader s e.0 b.system (omega (arith, h)) in
      let b₁ : IsBoarded board hw s₁ = handled-IsBoarded events board hw loader s s₁ b handled in
      let served : IsServed events s₁.bus =
        subst (λ x. IsServed events x) (sym handled.bus)
          (published-IsServed events (announcement events loader s.counter) s.bus b.system.wired
            w) in
      let bound : (s₁.counter + length loaders < 2 ^ 32) = omega (arith, handled.counter, h) in
      let (s', rest, boarded, counted, heard, boards) =
        load_all-IsBoarded board hw loaders s₁ e.1 b₁ served bound in
      (
        s',
        simp (load_all, loaded, rest) refl,
        boarded,
        omega (arith, counted, handled.counter),
        heard
            ∙ simp (handled.spawned, handled.counter, w (type_of loader))
                (append_assoc s.spawned _ (announced events (s.counter + 1) loaders)),
        boards ∙ handled.boards,
      )
