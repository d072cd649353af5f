-- ===== src/Scheduler/FileTaskStore/Laws.antt =====
-- What the file store promises while its file can be opened, and what it keeps over a restart.
use hhctrl_mgmt.Base.{
  ℕ, ◌≡◌, refl, Bool, true, false, none, some, List, [], ◌∷◌, ◌++◌, ◌==◌, if◌then◌else◌, find_if,
  erase_first, arith, ==_iff,
}
use hhctrl_mgmt.Base.Outcome.{done}
use hhctrl_mgmt.Scheduler.TaskStore.{TaskEntity, IsTaskStore}
use hhctrl_mgmt.Scheduler.FileTaskStore.{
  Json, File, FileTaskStore, has_id, store, load, new_store, find, add, remove, file_task_store,
}

-- No two tasks have the same id.
abbrev pub HasUniqueIds : List TaskEntity → Type 0
HasUniqueIds [] = Unit
HasUniqueIds (x ∷ xs) = (find_if (has_id x.id) xs ≡ none) × HasUniqueIds xs

pub find_if-append :
    (id : ℕ) (e : TaskEntity) (xs : List TaskEntity)
    → find_if (has_id e.id) xs ≡ none
    → find_if (has_id id) (xs ++ (e ∷ [])) ≡ (if id == e.id then some e else find_if (has_id id) xs)
find_if-append id e [] h = refl
find_if-append id e (x ∷ xs) h =
    ground (arith, h, ==_iff e.id x.id, ==_iff id x.id, ==_iff id e.id, find_if-append id e xs)

append-HasUniqueIds :
    (e : TaskEntity) (xs : List TaskEntity)
    → find_if (has_id e.id) xs ≡ none
    → HasUniqueIds xs
    → HasUniqueIds (xs ++ (e ∷ []))
append-HasUniqueIds e [] h u = (refl, tt)
append-HasUniqueIds e (x ∷ xs) h u = (
  ground (arith, h, u.0, ==_iff e.id x.id, ==_iff x.id e.id, find_if-append x.id e xs),
  append-HasUniqueIds e xs (ground (arith, h, ==_iff e.id x.id)) u.1,
)

pub find_if-erase_first :
    (id k : ℕ) (xs : List TaskEntity)
    → HasUniqueIds xs
    → find_if (has_id id) (erase_first (has_id k) xs)
      ≡ (if id == k then none else find_if (has_id id) xs)
find_if-erase_first id k [] u = ground arith
find_if-erase_first id k (x ∷ xs) u =
    ground (arith, u.0, ==_iff id x.id, ==_iff k x.id, ==_iff id k, find_if-erase_first id k xs u.1)

if-HasUniqueIds :
    (b : Bool) (xs ys : List TaskEntity)
    → HasUniqueIds xs
    → HasUniqueIds ys
    → HasUniqueIds (if b then xs else ys)
if-HasUniqueIds true _ _ u v = u
if-HasUniqueIds false _ _ u v = v

erase_first-HasUniqueIds :
    (k : ℕ) (xs : List TaskEntity) → HasUniqueIds xs → HasUniqueIds (erase_first (has_id k) xs)
erase_first-HasUniqueIds k [] u = tt
erase_first-HasUniqueIds k (x ∷ xs) u =
    if-HasUniqueIds (has_id k x) xs (x ∷ erase_first (has_id k) xs) u.1
      (ground (arith, u.0, find_if-erase_first x.id k xs u.1), erase_first-HasUniqueIds k xs u.1)

module _ (J : Json)
    (parse-serialize : (tasks : List TaskEntity) → J.parse (J.serialize tasks) ≡ some tasks) where
  -- The file can be opened and holds the tasks of the cache, whose ids differ.
  pub record IsSynced (s : FileTaskStore (J.Text)) : Type 0 where
    pub readable : s.file.readable ≡ true
    pub writable : s.file.writable ≡ true
    pub content : s.file.content ≡ some (J.serialize s.cached_tasks)
    pub unique : HasUniqueIds s.cached_tasks

  abbrev pub with_tasks : FileTaskStore (J.Text) → List TaskEntity → FileTaskStore (J.Text)
  with_tasks s tasks = record {
    file = record s.file { content = some (J.serialize tasks) };
    cached_tasks = tasks;
  }

  pub add_done :
      (entity : TaskEntity) (s : FileTaskStore (J.Text))
      → IsSynced s
      → find J entity.id s ≡ none
      → add J entity s ≡ done (tt, with_tasks s (s.cached_tasks ++ (entity ∷ [])))
  unfolding find add store load
  add_done entity s v absent = simp (add, absent, v.writable, v.readable, parse-serialize) refl

  pub remove_done :
      (task_id : ℕ) (entity : TaskEntity) (s : FileTaskStore (J.Text))
      → IsSynced s
      → find J task_id s ≡ some entity
      → remove J task_id s ≡ done (tt, with_tasks s (erase_first (has_id task_id) s.cached_tasks))
  unfolding find remove store load
  remove_done task_id entity s v present =
      simp (remove, present, v.writable, v.readable, parse-serialize) refl

  pub append-IsSynced :
      (entity : TaskEntity) (s : FileTaskStore (J.Text))
      → IsSynced s
      → find J entity.id s ≡ none
      → IsSynced (with_tasks s (s.cached_tasks ++ (entity ∷ [])))
  unfolding find
  append-IsSynced entity s v absent = record {
    readable = v.readable;
    writable = v.writable;
    content = refl;
    unique = append-HasUniqueIds entity s.cached_tasks absent v.unique;
  }

  pub erase_first-IsSynced :
      (task_id : ℕ) (s : FileTaskStore (J.Text))
      → IsSynced s
      → IsSynced (with_tasks s (erase_first (has_id task_id) s.cached_tasks))
  erase_first-IsSynced task_id s v = record {
    readable = v.readable;
    writable = v.writable;
    content = refl;
    unique = erase_first-HasUniqueIds task_id s.cached_tasks v.unique;
  }

  -- The file store is a task store that works, from any state in which the file is open to the program
  -- and holds the cached tasks, with no id twice. The texts are taken to parse to what they were made of.
  unfoldable pub file_task_store-IsTaskStore : IsTaskStore (file_task_store J)
  unfolding find
  file_task_store-IsTaskStore = record {
    IsValid = IsSynced;
    find-add = λ entity s v absent. (
      with_tasks s (s.cached_tasks ++ (entity ∷ [])),
      add_done entity s v absent,
      append-IsSynced entity s v absent,
      λ id. find_if-append id entity s.cached_tasks absent,
    );
    find-remove = λ task_id entity s v present. (
      with_tasks s (erase_first (has_id task_id) s.cached_tasks),
      remove_done task_id entity s v present,
      erase_first-IsSynced task_id s v,
      λ id. find_if-erase_first id task_id s.cached_tasks v.unique,
    );
  }

  -- A store made anew on the file of a synchronised store is that store: a restart loses no task.
  pub new_store_restart : (s : FileTaskStore (J.Text)) → IsSynced s → new_store J (s.file) ≡ done s
  unfolding new_store store load
  new_store_restart s v = simp (new_store, v.content, v.readable, parse-serialize) refl

  -- On a store that is synchronised with its file, whose texts parse to what they were made of:
  -- adding a task whose id the store does not know returns. The store stays synchronised, a store
  -- that is made anew on its file is the same store, and it knows the task and every other task
  -- that was known.
  pub find-add-new_store :
      (entity : TaskEntity) (s : FileTaskStore (J.Text)) (id : ℕ)
      → IsSynced s
      → find J entity.id s ≡ none
      → (s' : FileTaskStore (J.Text)) × (add J entity s ≡ done (tt, s'))
        × IsSynced s'
        × (new_store J s'.file ≡ done s')
        × (find J id s' ≡ (if id == entity.id then some entity else find J id s))
  unfolding find
  find-add-new_store entity s id v absent = (
    with_tasks s (s.cached_tasks ++ (entity ∷ [])),
    add_done entity s v absent,
    append-IsSynced entity s v absent,
    new_store_restart _ (append-IsSynced entity s v absent),
    find_if-append id entity s.cached_tasks absent,
  )

  -- On a store that is synchronised with its file, whose texts parse to what they were made of:
  -- removing a task that the store knows returns. The store stays synchronised, a store that is
  -- made anew on its file is the same store, and it does not know the task, but every other task
  -- that was known.
  find-remove-new_store :
      (task_id : ℕ) (entity : TaskEntity) (s : FileTaskStore (J.Text)) (id : ℕ)
      → IsSynced s
      → find J task_id s ≡ some entity
      → (s' : FileTaskStore (J.Text)) × (remove J task_id s ≡ done (tt, s'))
        × IsSynced s'
        × (new_store J s'.file ≡ done s')
        × (find J id s' ≡ (if id == task_id then none else find J id s))
  unfolding find
  find-remove-new_store task_id entity s id v present = (
    with_tasks s (erase_first (has_id task_id) s.cached_tasks),
    remove_done task_id entity s v present,
    erase_first-IsSynced task_id s v,
    new_store_restart _ (erase_first-IsSynced task_id s v),
    find_if-erase_first id task_id s.cached_tasks v.unique,
  )

  -- On a path where no file stands, and which can be written and read, the first start makes a file
  -- and a store without tasks, which is synchronised with it.
  pub new_store_first :
      (file : File (J.Text))
      → file.content ≡ none
      → file.readable ≡ true
      → file.writable ≡ true
      → (s : FileTaskStore (J.Text)) × (new_store J file ≡ done s)
        × IsSynced s
        × (s.cached_tasks ≡ [])
  unfolding new_store store load
  new_store_first file absent readable writable = (
    record { file = record file { content = some (J.serialize []) }; cached_tasks = [] },
    simp (new_store, absent, readable, writable, parse-serialize) refl,
    record { readable = readable; writable = writable; content = refl; unique = tt },
    refl,
  )
