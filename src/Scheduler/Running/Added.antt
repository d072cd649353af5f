-- ===== src/Scheduler/Running/Added.antt =====
-- What a call of `every` that returns has done.
use mathlib.Core.Path.{subst}
use hhctrl_mgmt.Base.{
  ℕ, ◌≡◌, refl, sym, ap, true, false, Option, none, some, [], ◌∷◌, ◌++◌, ◌==◌, String,
  if◌then◌else◌, arith, Bool-cases, inl, inr,
}
use hhctrl_mgmt.Base.Outcome.{
  Outcome, done, thrown, stuck, M, lift, pure, after-done, same_state, done-injective, ◌>>=◌, ◌>>◌,
}
use hhctrl_mgmt.Scheduler.TaskStore.{TaskEntity, TaskStore, IsTaskStore}
use hhctrl_mgmt.Scheduler.Tasks.{
  Task, Duration, ParseTime, new_task, generate_id, set_expiry, configure_expiry,
}
use hhctrl_mgmt.Scheduler.Policy.{
  Scheduler, Execution, strict, relaxed, is_active, is_task_active, add_task, every, activate_task,
}
use hhctrl_mgmt.Scheduler.Policy.Laws.{
  restored, HasUniqueTasks, append-HasUniqueTasks, add_task_strict,
}
use hhctrl_mgmt.Scheduler.Running.Tasks.{is_active-added}

restored-id : (stored : Option TaskEntity) (task : Task) → (restored stored task).id ≡ task.id
unfolding set_expiry
restored-id none task = refl
restored-id (some e) task = refl

-- A call whose state does not change, then one whose state does, then a value.
chain-done :
    {A B S : Type 0} (o : Outcome A) (m : A → M S (Unit {0})) (b b' : B) (s s' : S)
    → (lift o >>= λ a. m a >> pure b) s ≡ done (b', s')
    → (a : A) × (o ≡ done a) × (m a s ≡ done (tt, s')) × (b ≡ b')
chain-done (done a) m b b' s s' e =
    let (q, ran, final) = after-done (m a s) (λ q. done (b, q.1)) (b', s') e in
    (a, refl, cc (ran, final), cc final)
chain-done thrown m b b' s s' e = absurd (cc e)
chain-done stuck m b b' s s' e = absurd (cc e)

module _ (T : TaskStore) (L : IsTaskStore T) where
  open L use {IsValid, find-add, find-remove}

  -- What adding this task, to the first state, has made of it.
  pub record IsAdded (task : Task) (s s' : Scheduler T) : Type 0 where
    pub valid : IsValid s'.tasks_store
    pub unique : HasUniqueTasks s'.active_tasks
    pub fresh : is_active task.id s.active_tasks ≡ false
    pub active :
        (i : ℕ)
        → is_active i s'.active_tasks ≡ (if i == task.id then true else is_active i s.active_tasks)
    pub found : (i : ℕ) → (i == task.id) ≡ false → T.find i s'.tasks_store ≡ T.find i s.tasks_store

  pub add_task-fresh :
      (task : Task) (policy : Execution) (s s' : Scheduler T)
      → add_task T task policy s ≡ done (tt, s')
      → is_active task.id s.active_tasks ≡ false
  unfolding add_task is_task_active
  add_task-fresh task policy s s' e = elim (Bool-cases (is_active task.id s.active_tasks)) [
    | inr a ↦ a
    | inl a ↦
        let refused : (add_task T task policy s ≡ thrown) = simp (add_task, a) refl in
        absurd (cc (e, refused))
  ]

  pub add_task-IsAdded :
      (task : Task) (policy : Execution) (s s' : Scheduler T)
      → IsValid s.tasks_store
      → HasUniqueTasks s.active_tasks
      → add_task T task policy s ≡ done (tt, s')
      → IsAdded task s s'
  unfolding is_task_active add_task activate_task
  add_task-IsAdded task strict s s' v u e =
      let a = add_task-fresh task strict s s' e in
      let (s₁, added_it, valid, active, unique, found) =
        add_task_strict T L task s (T.find task.id s.tasks_store) v u a refl in
      let same : (s₁ ≡ s') = same_state (add_task T task strict s) added_it e in
      subst (IsAdded task s) same (record {
        valid = valid;
        unique = unique;
        fresh = a;
        active = λ i. ground (
          arith,
          active,
          is_active-added i (restored (T.find task.id s.tasks_store) task) s.active_tasks,
          restored-id (T.find task.id s.tasks_store) task,
        );
        found = λ i other. ground (arith, found i, other);
      })
  add_task-IsAdded task relaxed s s' v u e =
      let a = add_task-fresh task relaxed s s' e in
      let same : (record s { active_tasks = s.active_tasks ++ (task ∷ []) } ≡ s') =
        same_state (add_task T task relaxed s) (simp (add_task, a) refl) e in
      subst (IsAdded task s) same (record {
        valid = v;
        unique = append-HasUniqueTasks task s.active_tasks a u;
        fresh = a;
        active = λ i. is_active-added i task s.active_tasks;
        found = λ i other. refl;
      })

  module _ (format : ℕ → String) (name_generator : String → ℕ) (parse_time : ParseTime) where
    new_task-id :
        (now task_id : ℕ) (owner : String) (duration : Duration) (task : Task)
        → new_task parse_time now task_id owner duration ≡ done task
        → task.id ≡ task_id
    unfolding new_task
    new_task-id now task_id owner duration task made =
        let (expiry, clock, built) =
          after-done (configure_expiry parse_time now duration)
            (λ expiry.
              done (record { id = task_id; owner = owner; duration = duration; expiry = expiry }))
            task made in
        ap (λ t. t.id) (sym (done-injective built))

    -- The task that `every` has added.
    pub every-task :
        (now : ℕ) (owner : String) (policy : Execution) (duration : Duration) (s s' : Scheduler T)
        (id : ℕ)
        → every T format name_generator parse_time now owner policy duration s ≡ done (id, s')
        → (task : Task) × (add_task T task policy s ≡ done (tt, s')) × (task.id ≡ id)
    unfolding every
    every-task now owner policy duration s s' id e =
        let task_id = generate_id format name_generator owner duration in
        let (task, made, stored, same) =
          chain-done (new_task parse_time now task_id owner duration)
            (λ task. add_task T task policy) task_id id s s' e in
        (task, stored, cc (new_task-id now task_id owner duration task made, same))
