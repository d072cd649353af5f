-- ===== src/Examples/Adapters.antt =====
-- The adapters, their identities and the event handlers at concrete inputs.
use hhctrl_mgmt.Base.{ℕ, zero, suc, ◌≡◌, refl, none, some, List, [], ◌∷◌, String, arith}
use hhctrl_mgmt.Base.Outcome.{done, M, after}
use hhctrl_mgmt.Mqtt.Error.{Error, Fault, fault, timeout, value}
use hhctrl_mgmt.Adapter.Lifecycle.{EntityOps, Impl, async_init, async_configure}
use hhctrl_mgmt.Adapter.Lifecycle.Laws.{async_init_connects}
use hhctrl_mgmt.Board.Hardware.{HardwareIdentity}
use hhctrl_mgmt.Adapter.Handlers.{
  Handler, hatch_created, hatch_removed, sensor_created, sensor_removed,
}
use hhctrl_mgmt.Adapter.Handlers.Laws.{removed-created}

-- An entity whose next attempts to connect fail, as many as its state says.
abbrev pub connect_after : M ℕ Error
connect_after zero = done (none, 0)
connect_after (suc n) = done (some (fault timeout ""), n)

abbrev pub failing : EntityOps
failing = record {
  State = ℕ;
  Value = ℕ;
  EntityState = ℕ;
  availability = λ s. "availability";
  set_will = λ will s. done (tt, s);
  async_connect = connect_after;
  async_configure = λ config opts s. done (none, s);
  async_set_availability = λ a opts s. done (none, s);
  async_set_state = λ state opts s. done (none, s);
  async_receive = λ s. done (value 0, s);
}

abbrev impl : Impl failing
impl = record { config = []; state = some (done 1) }

abbrev failures : ℕ → List (Fault × ℕ)
failures zero = []
failures (suc n) = (fault timeout "", n) ∷ failures n

async_init_connects_example :
    async_init failing impl (record { entity = 2; waited = [] })
    ≡ async_configure failing impl (record { entity = 0; waited = 60 ∷ 60 ∷ [] })
async_init_connects_example =
    async_init_connects failing impl (failures 2) 2 0 [] (refl, (refl, tt)) (omega arith) refl

abbrev board : HardwareIdentity
board = record { manufacturer = "M"; model = "B"; serial_number = "5"; revision = "1" }

abbrev no_devices : Handler String
no_devices = record { devices = []; running = [] }

removed-created_example :
    (after (hatch_created (λ id. done (some "5")) 3 no_devices) (hatch_removed 3)
      ≡ done (record { devices = []; running = 3 ∷ [] }))
    × (after (sensor_created (λ id. done (some "5")) 3 no_devices) (sensor_removed 3)
        ≡ done (record { devices = []; running = 3 ∷ [] }))
removed-created_example = removed-created (λ id. done (some "5")) 3 no_devices (some "5") refl refl
