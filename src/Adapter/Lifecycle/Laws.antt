-- ===== src/Adapter/Lifecycle/Laws.antt =====
-- How an adapter starts, and what it does when its client reports an error.
use hhctrl_mgmt.Base.{
  append-nil, ℕ, zero, suc, ◌+◌, ◌-◌, length, ◌<◌, ◌≡◌, refl, ◌∙◌, Bool, true, false, none, some,
  List, [], ◌∷◌, ◌++◌, String, arith,
}
use mathlib.Core.Path.{subst}
use hhctrl_mgmt.Base.Outcome.{Outcome, done, thrown, stuck, M, pure, after}
use hhctrl_mgmt.Mqtt.Error.{Fault, fault, ErrorCode, Error, disconnected, reconnected}
use hhctrl_mgmt.Adapter.Lifecycle.{
  EntityOps, Adapter, Impl, async_connect, async_configure, connect_attempts, async_init,
  async_handle_error, async_handle_disconnected_error, async_handle_reconnected_error,
  init_retry_delay,
}

abbrev pub delays : ℕ → List ℕ
delays zero = []
delays (suc n) = init_retry_delay ∷ delays n

append-delays : (w : List ℕ) (x : ℕ) (rest : List ℕ) → (w ++ (x ∷ [])) ++ rest ≡ w ++ (x ∷ rest)
append-delays [] x rest = refl
append-delays (y ∷ w) x rest = rw (append-delays w x rest) refl

module _ (E : EntityOps) where
  -- Attempts to connect that fail one after another, each with an error and the state that it leaves.
  abbrev pub Fails : E.State → List (Fault × E.State) → Type 0
  Fails s [] = Unit
  Fails s ((f, s₁) ∷ later) = (E.async_connect s ≡ done (some f, s₁)) × Fails s₁ later

  abbrev pub last_state : E.State → List (Fault × E.State) → E.State
  last_state s [] = s
  last_state s ((f, s₁) ∷ later) = last_state s₁ later

  abbrev pub last_error : Error → List (Fault × E.State) → Error
  last_error e [] = e
  last_error e ((f, s₁) ∷ later) = last_error (some f) later

  -- As many attempts as these failures, and those that are left.
  abbrev attempts : List (Fault × E.State) → ℕ → ℕ
  attempts [] left = left
  attempts (x ∷ later) left = suc (attempts later left)

  attempts-length :
      (failures : List (Fault × E.State)) (left : ℕ)
      → attempts failures left ≡ length failures + left
  attempts-length [] left = omega arith
  attempts-length (x ∷ later) left = omega (arith, attempts-length later left)

  connect_attempts-failures :
      (failures : List (Fault × E.State)) (left : ℕ) (e : Error) (s : E.State) (w : List ℕ)
      → Fails s failures
      → connect_attempts E (attempts failures left) e (record { entity = s; waited = w })
        ≡ connect_attempts E left
            (last_error e failures)
            (record { entity = last_state s failures; waited = w ++ delays (length failures) })
  unfolding connect_attempts async_connect
  connect_attempts-failures [] left e s w h = rw (append-nil w) refl
  connect_attempts-failures ((f, s₁) ∷ later) left e s w (failed, h) =
      simp
        (
          connect_attempts,
          failed,
          connect_attempts-failures later left (some f) s₁ (w ++ (init_retry_delay ∷ [])) h,
          append-delays w init_retry_delay,
        )
        refl

  connect_attempts-success :
      (failures : List (Fault × E.State)) (s s' : E.State) (w : List ℕ)
      → Fails s failures
      → length failures < 10
      → E.async_connect (last_state s failures) ≡ done (none, s')
      → connect_attempts E 10 none (record { entity = s; waited = w })
        ≡ done (none, record { entity = s'; waited = w ++ delays (length failures) })
  unfolding connect_attempts async_connect
  connect_attempts-success failures s s' w h few connected =
      let left : ℕ = 9 - length failures in
      let all : (attempts failures (suc left) ≡ 10) =
        omega (arith, few, attempts-length failures (suc left)) in
      subst
        (λ n.
          connect_attempts E n none (record { entity = s; waited = w })
          ≡ done (none, record { entity = s'; waited = w ++ delays (length failures) }))
        all
        (connect_attempts-failures failures (suc left) none s w h
          ∙ simp (connect_attempts, connected) refl)

  connect_attempts-exhausted :
      (failures : List (Fault × E.State)) (s : E.State) (w : List ℕ)
      → Fails s failures
      → length failures ≡ 10
      → connect_attempts E 10 none (record { entity = s; waited = w })
        ≡ done (
          last_error none failures,
          record { entity = last_state s failures; waited = w ++ delays 10 },
        )
  unfolding connect_attempts
  connect_attempts-exhausted failures s w h ten =
      let all : (attempts failures 0 ≡ 10) = omega (arith, ten, attempts-length failures 0) in
      subst
        (λ n.
          connect_attempts E n none (record { entity = s; waited = w })
          ≡ done (
            last_error none failures,
            record { entity = last_state s failures; waited = w ++ delays 10 },
          ))
        all (connect_attempts-failures failures 0 none s w h ∙ simp (connect_attempts, ten) refl)

  result_kept :
      (o : Outcome (Bool × Adapter E))
      → after o (λ r.
        (elim r.0 as (λ x. M (Adapter E) Bool) [ false ↦ pure false | true ↦ pure true ]) r.1)
        ≡ o
  result_kept (done (false, a)) = refl
  result_kept (done (true, a)) = refl
  result_kept thrown = refl
  result_kept stuck = refl

  some_error :
      (f : Fault) (later : List (Fault × E.State))
      → (g : Fault) × (last_error (some f) later ≡ some g)
  some_error f [] = (f, refl)
  some_error f ((g, s) ∷ later) = some_error g later

  -- Where fewer than ten attempts to connect fail, each with an error, and the next succeeds,
  -- `async_init` waits a minute after each failure and then does what configuring the entity does,
  -- with its result.
  pub async_init_connects :
      (impl : Impl E) (failures : List (Fault × E.State)) (s s' : E.State) (w : List ℕ)
      → Fails s failures
      → length failures < 10
      → E.async_connect (last_state s failures) ≡ done (none, s')
      → async_init E impl (record { entity = s; waited = w })
        ≡ async_configure E impl (record { entity = s'; waited = w ++ delays (length failures) })
  unfolding async_init
  async_init_connects impl failures s s' w h few connected =
      simp (async_init, connect_attempts-success failures s s' w h few connected) (result_kept _)

  -- Where ten attempts to connect fail, `async_init` gives up: it has waited a minute after each, the
  -- last one included, has configured nothing, and returns false.
  async_init_gives_up :
      (impl : Impl E) (failures : List (Fault × E.State)) (s : E.State) (w : List ℕ)
      → Fails s failures
      → length failures ≡ 10
      → async_init E impl (record { entity = s; waited = w })
        ≡ done (false, record { entity = last_state s failures; waited = w ++ delays 10 })
  unfolding async_init
  async_init_gives_up impl [] s w h ten = absurd (omega (arith, ten))
  async_init_gives_up impl ((f, s₁) ∷ later) s w h ten =
      let (g, last) = some_error f later in
      simp (async_init, connect_attempts-exhausted ((f, s₁) ∷ later) s w h ten, last) refl

  -- What an error of the client leads to. After `disconnected` the adapter connects once, and, if it
  -- could, configures the entity anew; after `reconnected` it configures the entity anew; any other
  -- error changes nothing and is not recovered from.
  pub async_handle_error_lem :
      (impl : Impl E) (c : ErrorCode) (what : String) (a : Adapter E)
      → async_handle_error E impl (fault c what) a ≡ (elim c [
        | disconnected ↦ after (async_connect E a) (λ r.
            (elim r.0 as (λ x. M (Adapter E) Bool) [
              | some f ↦ pure false
              | none ↦ async_configure E impl
            ])
              r.1)
        | reconnected ↦ async_configure E impl a
        | _ ↦ done (false, a)
      ])
  unfolding async_handle_error async_handle_disconnected_error async_handle_reconnected_error
  async_handle_error_lem impl disconnected what a = refl
  async_handle_error_lem impl _ what a = refl
