-- ===== src/Scheduler/FileTaskStore.antt =====
-- `FileTaskStore` of src/common/scheduler/file_task_store.cpp: a store that rewrites its file and reads
-- it back at every change. The texts of the tasks in JSON are a parameter.
pub mod Laws
use hhctrl_mgmt.Base.{
  ℕ, ◌≡◌, Bool, true, false, Option, none, some, List, [], ◌∷◌, ◌++◌, ◌==◌, String, if◌then◌else◌,
  find_if, erase_first, is_some,
}
use hhctrl_mgmt.Base.Outcome.{
  Outcome, done, thrown, M, ◌>>=◌, ◌>>◌, pure, throw, get, modify, after,
}
use hhctrl_mgmt.Scheduler.TaskStore.{TaskEntity, TaskStore}

-- `Text` is the type of the texts; `parse` is none for a text that is no list of tasks.
pub record Json : Type 1 where
  pub Text : Type 0
  pub serialize : List TaskEntity → Text
  pub parse : Text → Option (List TaskEntity)

-- The file at the store's path: none where there is none, and whether it may be opened.
pub record File (Text : Type 0) : Type 0 where
  pub content : Option Text
  pub readable : Bool
  pub writable : Bool

pub record FileTaskStore (Text : Type 0) : Type 0 where
  pub file : File Text
  pub cached_tasks : List TaskEntity

abbrev pub has_id : ℕ → TaskEntity → Bool
has_id task_id entity = task_id == entity.id

module _ (J : Json) where
  unfoldable pub store : M (FileTaskStore (J.Text)) (Unit {0})
  store s =
      if s.file.writable
      then done
          (tt, record s { file = record s.file { content = some (J.serialize s.cached_tasks) } })
      else thrown

  unfoldable pub load : M (FileTaskStore (J.Text)) (Unit {0})
  load s =
      if s.file.readable
      then elim s.file.content [
        | none ↦ thrown
        | some written ↦ elim (J.parse written) [
          | none ↦ thrown
          | some tasks ↦ done (tt, record s { cached_tasks = tasks })
        ]
      ]
      else thrown

  -- The constructor, on what stands at its path. The `fstream` that creates the file is not tested;
  -- `store` is, on the same path.
  unfoldable pub new_store : File (J.Text) → Outcome (FileTaskStore (J.Text))
  unfolding store load
  new_store file =
      let s : FileTaskStore (J.Text) = record { file = file; cached_tasks = [] } in
      let created : Outcome (Unit {0} × FileTaskStore (J.Text)) =
        (if is_some file.content then done (tt, s) else store s) in
      after created (λ r. after (load r.1) (λ loaded. done loaded.1))

  unfoldable pub find : ℕ → FileTaskStore (J.Text) → Option TaskEntity
  find task_id s = find_if (has_id task_id) s.cached_tasks

  unfoldable pub exist : ℕ → FileTaskStore (J.Text) → Bool
  exist task_id s = is_some (find_if (has_id task_id) s.cached_tasks)

  unfoldable pub add : TaskEntity → M (FileTaskStore (J.Text)) (Unit {0})
  unfolding store load
  add entity s = elim (find_if (has_id entity.id) s.cached_tasks) [
    | some task ↦ thrown
    | none ↦
        (do modify (λ s. record s { cached_tasks = s.cached_tasks ++ (entity ∷ []) }); store; load)
          s
  ]

  unfoldable pub remove : ℕ → M (FileTaskStore (J.Text)) (Unit {0})
  unfolding store load
  remove task_id s = elim (find_if (has_id task_id) s.cached_tasks) [
    | none ↦ thrown
    | some task ↦
        (do
          modify (λ s. record s { cached_tasks = erase_first (has_id task_id) s.cached_tasks })
          store
          load)
          s
  ]

  abbrev pub file_task_store : TaskStore
  file_task_store = record {
    State = FileTaskStore (J.Text);
    add = add;
    exist = exist;
    find = find;
    remove = remove;
  }
