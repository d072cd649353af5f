-- ===== src/Examples/Starts.antt =====
-- The start of the program at concrete inputs: its files, its configuration and its tables.
use hhctrl_mgmt.Base.{
  ℕ, ◌+◌, ◌*◌, ◌≡◌, ◌↔◌, zero, suc, refl, ap, Bool, true, false, Option, none, some, List, [], ◌∷◌,
  ◌++◌ as append, String, str_eq, if◌then◌else◌, arith, ◌==◌, append_assoc,
}
use Prim.Native.String.{◌++◌, count}
use text.Mathlib.TextLemmas.{append_cancel_left, length-append}
use hhctrl_mgmt.Base.Maps.{lookup, insert}
use hhctrl_mgmt.Base.Outcome.{done}
use hhctrl_mgmt.Utils.Streams.{StreamParser, IsIncremental, open_file, read_json, parse}
use hhctrl_mgmt.Utils.Streams.Laws.{read_json-parse}
use hhctrl_mgmt.Board.{main_board, set_indicator_state}
use hhctrl_mgmt.Board.Leds.{Files}
use hhctrl_mgmt.Board.Hardware.{HardwareIdentity}
use hhctrl_mgmt.Device.Tree.{Node, add_child, parent}
use hhctrl_mgmt.Device.Registry.{register_device, new_id, add}
use hhctrl_mgmt.Poller.Service.{Poller, add_poller, start_poller}
use hhctrl_mgmt.Bus.Events.{whole, slots, publish, emit}
use hhctrl_mgmt.Adapter.Identity.{DeviceIdentity, identity, get_unique_id}
use hhctrl_mgmt.Platform.{
  System, DeviceType, register_hatch, register_temp_sensor, cpu_temp_sensor, poll_device,
  publish_event,
}
use hhctrl_mgmt.Platform.Pdtree.{PdTreeValue, other, array, end_array}
use hhctrl_mgmt.Platform.Builder.{
  hatch_loader, cpu_temp_sensor_loader, handle, load, get_path, add_to_board,
}
use hhctrl_mgmt.Platform.Discovery.Entries.{describe}
use hhctrl_mgmt.App.Config.{AppConfig, load_config}
use hhctrl_mgmt.App.Config.Laws.{IsBounded, config_value, load_config-value}
use hhctrl_mgmt.App.HomeAssistant.{EventType, created, handler_of}
use hhctrl_mgmt.App.HomeAssistant.Laws.{AreDistinct, kind_code}
use hhctrl_mgmt.App.MainBoardInit.{init_devices}
use hhctrl_mgmt.App.MainBoardInit.Laws.{IsBoarded, announced}
use hhctrl_mgmt.App.MainBoardInit.Reach.{start, loaded, Reach-IsBoarded, IsBoarded-identity}
use hhctrl_mgmt.App.Main.{initial}
use hhctrl_mgmt.App.Main.Laws.{init_devices-IsBoarded}
use hhctrl_mgmt.Examples.Platforms.{entries, dark_entries}

abbrev pub settings : AppConfig
settings = record {
  log_dir = "/log";
  dtree_file = "/devices";
  entity_client_config = record {
    username = "u";
    password = "p";
    server_address = "broker";
    server_port = 1883;
    keep_alive_interval = 30;
    max_reconnect_attempts = 5;
    reconnect_delay = 5;
  };
}

-- A parser that takes a text that starts with 1 for the configuration, one with 3 for a description without
-- an RGB LED, and any other for one with it.
abbrev decode : List ℕ → PdTreeValue
decode [] = other
decode (byte ∷ bytes) =
    if byte == 1
    then config_value settings
    else array (describe (if byte == 3 then dark_entries else entries) end_array)

abbrev pub parser : StreamParser PdTreeValue
parser = record {
  State = List ℕ;
  fresh = [];
  write = λ bytes s. (append s bytes, false);
  finish = λ s. (s, false);
  release = decode;
}

parser-IsIncremental : IsIncremental parser
parser-IsIncremental = record { append = λ xs ys s. ap (λ l. (l, false)) (append_assoc s xs ys) }

read_json-parse_example : read_json parser 1 (open_file (some (1 ∷ []))) ≡ parse parser (1 ∷ [])
read_json-parse_example = read_json-parse parser parser-IsIncremental 1 (1 ∷ []) (omega arith)

settings-IsBounded : IsBounded settings.entity_client_config
settings-IsBounded = record {
  server_port = omega arith;
  keep_alive_interval = omega arith;
  max_reconnect_attempts = omega arith;
  reconnect_delay = omega arith;
}

load_config-value_example : load_config parser 1 (open_file (some (1 ∷ []))) ≡ done settings
unfolding parse
load_config-value_example =
    load_config-value parser 1 (1 ∷ []) settings parser-IsIncremental (omega arith) refl
      settings-IsBounded

pub settings_loaded : load_config parser 1 (open_file (some (1 ∷ []))) ≡ done settings
unfolding parse
settings_loaded =
    load_config-value parser 1 (1 ∷ []) settings parser-IsIncremental (omega arith) refl
      settings-IsBounded

abbrev pub exists : String → Bool
exists path = true

-- The configuration is at "/config".
abbrev pub content : String → Option (List ℕ)
content path = some (if str_eq path "/config" then 1 ∷ [] else 2 ∷ [])

abbrev pub ids : EventType → DeviceType → ℕ
ids k t = kind_code k * 3 + handler_of t

pub ids-AreDistinct : AreDistinct ids
ids-AreDistinct j k t u = ground arith

abbrev pub leds : Files
leds led = some 0

abbrev lit : Files
lit led = some (if led == 1 then 255 else 0)

abbrev pub hw : HardwareIdentity
hw = record { manufacturer = "BHome"; model = "B"; revision = "R1"; serial_number = "5" }

init_devices-IsBoarded_example :
    (s : System) × (init_devices exists
        (ids created)
        hw
        (record {
          indicators = [];
          generic_loaders = hatch_loader "/hatch" ∷ cpu_temp_sensor_loader "/cpu" ∷ [];
        })
        (initial leds ids)
      ≡ done (tt, s))
    × IsBoarded 1 hw s
    × (s.counter ≡ 4)
    × (s.spawned
        ≡ record { handler = whole 0; event = record { event_id = 0; device_id = 1 } }
          ∷ record { handler = whole 1; event = record { event_id = 1; device_id = 2 } }
          ∷ record { handler = whole 2; event = record { event_id = 2; device_id = 3 } }
          ∷ [])
    × (s.boards ≡ (1, []) ∷ [])
unfolding announced main_board set_indicator_state
init_devices-IsBoarded_example =
    init_devices-IsBoarded ids leds exists hw
      (record {
        indicators = [];
        generic_loaders = hatch_loader "/hatch" ∷ cpu_temp_sensor_loader "/cpu" ∷ [];
      })
      leds ids-AreDistinct refl (refl, (refl, tt)) (omega arith)

abbrev poller : ℕ → ℕ → Poller
poller device_id interval = record { device_id = device_id; interval = interval }

abbrev child_of_board : ℕ → Node
child_of_board device_id = record { parent_device_id = 1; device_id = device_id; func = none }

-- A board alone, and with a hatch.
abbrev board_only : System
board_only = record (initial leds ids) {
  counter = 2;
  boards = (1, []) ∷ [];
  hw_identity_store = (1, hw) ∷ [];
  polling_service = record { pollers = poller 1 5000 ∷ []; started = poller 1 5000 ∷ [] };
  bus = [];
}

abbrev with_hatch : System
with_hatch = record board_only {
  counter = 3;
  hatches = (2, "/hatch") ∷ [];
  dtree = child_of_board 2 ∷ [];
  polling_service = record {
    pollers = poller 1 5000 ∷ poller 2 2000 ∷ [];
    started = poller 1 5000 ∷ poller 2 2000 ∷ [];
  };
  bus = (1, []) ∷ [];
}

board_only-IsBoarded : IsBoarded 1 hw board_only
unfolding parent lookup slots
board_only-IsBoarded = record {
  system = record {
    fresh = record {
      hatches = tt;
      temp_sensors = tt;
      parentless = λ d older. refl;
      unpolled = λ d older. ground (arith, older);
    };
    tree = tt;
    service = record { unique = (refl, tt); started = refl };
    wired = λ id. tt;
  };
  older = omega arith;
  identity = λ d. ground arith;
  parents = λ d newer known. absurd (omega (arith, newer, known));
  polled = λ d newer known. ground (arith, newer, known);
}

-- And with a sensor as well.
abbrev with_sensor : System
with_sensor = record with_hatch {
  counter = 4;
  temp_sensors = (3, cpu_temp_sensor "/cpu") ∷ [];
  dtree = child_of_board 2 ∷ child_of_board 3 ∷ [];
  polling_service = record {
    pollers = poller 1 5000 ∷ poller 2 2000 ∷ poller 3 2000 ∷ [];
    started = poller 1 5000 ∷ poller 2 2000 ∷ poller 3 2000 ∷ [];
  };
  bus = (1, []) ∷ (2, []) ∷ [];
}

hatch_loaded :
    handle exists (ids created) 1 (hatch_loader "/hatch") board_only ≡ done (true, with_hatch)
unfolding handle load get_path register_hatch register_device new_id add poll_device add_poller
    start_poller add_to_board add_child publish_event publish emit slots lookup insert
hatch_loaded = refl

sensor_loaded :
    handle exists (ids created) 1 (cpu_temp_sensor_loader "/cpu") with_hatch
    ≡ done (true, with_sensor)
unfolding handle load get_path register_temp_sensor register_device new_id add poll_device
    add_poller start_poller add_to_board add_child publish_event publish emit slots lookup insert
sensor_loaded = refl

Reach-IsBoarded_example : IsBoarded 1 hw with_sensor × (4 ≡ 2 + 2)
Reach-IsBoarded_example =
    Reach-IsBoarded exists (ids created) 1 hw
      (loaded (cpu_temp_sensor_loader "/cpu") (loaded (hatch_loader "/hatch") start hatch_loaded)
        sensor_loaded)
      board_only-IsBoarded (omega arith)

with_sensor-IsBoarded : IsBoarded 1 hw with_sensor
with_sensor-IsBoarded =
    (Reach-IsBoarded exists (ids created) 1 hw
      (loaded (cpu_temp_sensor_loader "/cpu") (loaded (hatch_loader "/hatch") start hatch_loaded)
        sensor_loaded)
      board_only-IsBoarded (omega arith)).0

-- A number written as so many ones.
abbrev pub ones : ℕ → String
ones zero = ""
ones (suc n) = "1" ++ ones n

ones-distinct : (a b : ℕ) → ones a ≡ ones b → a ≡ b
ones-distinct zero zero e = refl
ones-distinct zero (suc b) e = absurd (omega (arith, ap count e, length-append "1" (ones b)))
ones-distinct (suc a) zero e = absurd (omega (arith, ap count e, length-append "1" (ones a)))
ones-distinct (suc a) (suc b) e =
    ap suc (ones-distinct a b (append_cancel_left "1" (ones a) (ones b) e))

IsBoarded-identity_example :
    (i : DeviceIdentity) × (identity with_sensor.hw_identity_store with_sensor.dtree 1 ≡ done i)
    × (identity with_sensor.hw_identity_store with_sensor.dtree 2 ≡ done i)
    × (identity with_sensor.hw_identity_store with_sensor.dtree 3 ≡ done i)
    × ((get_unique_id ones 2 i ≡ get_unique_id ones 3 i) ↔ (◌≡◌ {A = ℕ} 2 3))
IsBoarded-identity_example =
    IsBoarded-identity 1 2 3 hw with_sensor ones ones-distinct with_sensor-IsBoarded (omega arith)
      (omega arith) (omega arith) (omega arith)
