-- ===== src/Adapter/MainBoard/Running.antt =====
-- The board's adapters at work: its run loops, the synchronisation of its indicators, and the restart
-- button, of src/home_assistant_adapter/device/main_board.cpp.
use hhctrl_mgmt.Base.{
  ℕ, ◌≡◌, refl, List, [], ◌∷◌, ◌++◌, map, String, str_eq, if◌then◌else◌, Bool-cases, inl, inr, none,
}
use hhctrl_mgmt.Base.Outcome.{done, M, ◌>>=◌, pure, after, lift}
use hhctrl_mgmt.Mqtt.Error.{value}
use hhctrl_mgmt.Mqtt.Packet.{Publish}
use hhctrl_mgmt.Mqtt.Config.{Config}
use hhctrl_mgmt.Mqtt.Entity.{
  EntityClient, Entity, topic, availability_topic, set_will, async_connect, async_receive,
  async_set_availability,
}
use hhctrl_mgmt.Mqtt.Button.{ButtonCommand, button_configure, button_receive}
use hhctrl_mgmt.Board.{IndicatorType, Indicator}
use hhctrl_mgmt.Board.Hardware.{SystemCall, sync, reboot, restart}
use hhctrl_mgmt.Device.Registry.{get}
use hhctrl_mgmt.Adapter.Lifecycle.{
  EntityOps, Adapter, Impl, async_sync_state, async_run_round, async_handle_error,
}

-- `RestartButton::async_handle_recv_value`, on the inventory of boards.
unfoldable pub restart_recv :
    List (ℕ × List Indicator) → ℕ → ButtonCommand → M (List SystemCall) (Unit {0})
restart_recv boards device_id command = do device ← lift (get device_id boards); restart

-- A run loop that `MainBoard::async_run` spawns.
pub data RunLoop : Type 0 where
  indicator_loop : IndicatorType → RunLoop
  restart_loop : RunLoop

module _ (I : EntityOps) where
  -- `MainBoard::async_run`, on the types of `indicators_`.
  unfoldable pub board_run : List (IndicatorType × Adapter I) → List RunLoop
  board_run indicators = map (λ i. indicator_loop i.0) indicators ++ (restart_loop ∷ [])

  -- `MainBoard::async_sync_state`; `impl` is each indicator's configuration and state. The order is that
  -- of the list, where the source has that of a hash table.
  unfoldable pub board_sync_state :
      (IndicatorType → Impl I) → M (List (IndicatorType × Adapter I)) (Unit {0})
  board_sync_state impl [] = done (tt, [])
  board_sync_state impl ((t, indicator) ∷ indicators) =
      after (async_sync_state I (impl t) indicator)
        λ r. after (board_sync_state impl indicators) λ rest. done (tt, (t, r.1) ∷ rest.1)

-- A button has no state that could be set.
abbrev pub button_ops : EntityClient → ℕ → (Config → String) → EntityOps
button_ops C rounds serialize = record {
  State = Entity (C.State);
  Value = ButtonCommand;
  EntityState = Unit {0};
  availability = λ e. topic e availability_topic;
  set_will = set_will C;
  async_connect = async_connect C;
  async_configure = button_configure C serialize;
  async_set_availability = async_set_availability C;
  async_set_state = λ state opts. pure none;
  async_receive = button_receive C rounds;
}

module _ (C : EntityClient) (rounds : ℕ) (serialize : Config → String) where
  -- A round of `async_run` of the restart button of a registered board, which receives a packet: if its
  -- payload is "press" the file systems are flushed and the board is rebooted, in this order, and on
  -- any other payload nothing is asked of the kernel. The adapter is as it was but for what receiving
  -- changed of its entity.
  pub restart_round :
      (impl : Impl (button_ops C rounds serialize)) (a : Adapter (button_ops C rounds serialize))
      (e' : Entity (C.State)) (m : Publish) (calls : List SystemCall)
      (boards : List (ℕ × List Indicator)) (device_id : ℕ) (board : List Indicator)
      → async_receive C rounds a.entity ≡ done (value m, e')
      → get device_id boards ≡ done board
      → async_run_round
          (button_ops C rounds serialize)
          impl
          (restart_recv boards device_id)
          (a, calls)
        ≡ done (
          tt,
          (
            record a { entity = e' },
            if str_eq m.payload "press" then (calls ++ sync ∷ []) ++ reboot ∷ [] else calls,
          ),
        )
  unfolding async_run_round button_receive restart_recv restart async_handle_error
  restart_round impl a e' m calls boards device_id board r g =
      elim (Bool-cases (str_eq m.payload "press")) [
        | inl pressed ↦ simp (async_run_round, button_receive, restart_recv, r, pressed, g) refl
        | inr other ↦ simp (async_run_round, button_receive, r, other) refl
      ]
