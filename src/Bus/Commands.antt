-- ===== src/Bus/Commands.antt =====
-- src/common/command/include/command/dispatcher.hpp and command_handler_wrapper.hpp. A command is
-- its id with its content, a number; a handler is a number.
use hhctrl_mgmt.Base.{
  ℕ, ◌≡◌, ◌≢◌, ◌↔◌, ◌⊎◌, Bool, true, none, some, List, arith, ◌==◌, if◌then◌else◌, Option-cases,
  inl, inr,
}
use hhctrl_mgmt.Base.Maps.{lookup, insert, contains, lookup-insert}
use hhctrl_mgmt.Base.Outcome.{Outcome, done, thrown}

-- `AsyncHandlerWrapper`: the handler, and the id of the command that it was made for.
pub record Wrapper : Type 0 where
  pub command_id : ℕ
  pub handler : ℕ

-- `not base_cmd.id() == expected`: the negation binds tighter, and gives 1 for 0, else 0.
abbrev pub rejects : ℕ → ℕ → Bool
rejects id expected = (if id == 0 then 1 else 0) == expected

-- The handler that is awaited, with the command.
unfoldable pub wrapper_dispatch : Wrapper → ℕ × ℕ → Outcome (ℕ × ℕ)
wrapper_dispatch w (id, content) =
    if rejects id w.command_id then thrown else done (w.handler, content)

abbrev pub Handlers : Type 0
Handlers = List (ℕ × Wrapper)

unfoldable pub add_handler : ℕ → ℕ → Handlers → Outcome Handlers
add_handler id handler handlers =
    if contains id handlers
    then thrown
    else done (insert id (record { command_id = id; handler = handler }) handlers)

unfoldable pub async_dispatch : ℕ × ℕ → Handlers → Outcome (ℕ × ℕ)
unfolding wrapper_dispatch
async_dispatch (id, content) handlers = elim (lookup id handlers) [
  | none ↦ thrown
  | some w ↦ wrapper_dispatch w (id, content)
]

-- Each wrapper stands under the id that it was made for.
abbrev pub IsRegistry : Handlers → Type 0
IsRegistry handlers = (id : ℕ) → (w : Wrapper) → lookup id handlers ≡ some w → w.command_id ≡ id

-- Where each wrapper is under the id that it was made for: a second handler for one command is
-- refused. A first one is added: its command is dispatched to it, every other command is
-- dispatched as before, and wrappers stay under their ids.
pub add_handler_lem :
    (id j handler content : ℕ) (hs : Handlers)
    → IsRegistry hs
    → ((lookup id hs ≢ none) × (add_handler id handler hs ≡ thrown))
      ⊎ ((hs' : Handlers) × (add_handler id handler hs ≡ done hs')
          × IsRegistry hs'
          × (async_dispatch (id, content) hs' ≡ done (handler, content))
          × (async_dispatch (j, content) hs'
              ≡ (if id == j then done (handler, content) else async_dispatch (j, content) hs)))
unfolding add_handler async_dispatch
add_handler_lem id j handler content hs v = elim (Option-cases (lookup id hs)) [
  | inr (w, e) ↦ inl (ground (arith, e), ground (arith, e))
  | inl e ↦ inr (
    insert id (record { command_id = id; handler = handler }) hs,
    ground (arith, e),
    λ i w h. ground (arith, lookup-insert id i wrapper hs, v i w),
    ground (arith, lookup-insert id id wrapper hs),
    ground (arith, lookup-insert id j wrapper hs),
  )
]
  where
    wrapper : Wrapper
    wrapper = record { command_id = id; handler = handler }

-- On wrappers under their ids the dispatcher throws for an unknown command only.
pub async_dispatch_throws :
    (id content : ℕ) (hs : Handlers)
    → IsRegistry hs
    → (async_dispatch (id, content) hs ≡ thrown) ↔ (lookup id hs ≡ none)
unfolding async_dispatch
async_dispatch_throws id content hs v = elim (Option-cases (lookup id hs)) [
  | inl e ↦ ground (arith, e)
  | inr (w, e) ↦ ground (arith, e, v id w e)
]

-- The wrapper's own test rejects a command exactly when its id is 0 and the wrapper's is 1, or when
-- its id is not 0 and the wrapper's is. It lets every other foreign command through.
pub rejects_lem :
    (id expected : ℕ)
    → (rejects id expected ≡ true) ↔ (((id ≡ 0) × (expected ≡ 1)) ⊎ ((id ≢ 0) × (expected ≡ 0)))
rejects_lem id expected = ground arith
