-- ===== src/Task/Remove.antt =====
-- vibeos/task.c: task_remove.
use mathlib.Core.Path.{subst}
use native.Mathlib.Decide.{ℕ_discrete}
use vibeos_fpga.Common.{
  ℕ, suc, ◌-◌, ◌<◌, max, ◌≡◌, refl, sym, ◌∙◌, ap, false, inl, inr, List, ◌==◌, if◌then◌else◌, arith,
  length, get_or, set, take, lt→ltb, eq→==, ne→==, get_or-set_self, get_or-set,
}
use vibeos_fpga.Task.{
  Sched, task_running, task_sleeping, meta_of, level_of, set_level, set_flags, is_bad_level,
  is_bad_count, cut, remove_at, task_remove, find_task, shift_tasks, no_level, no_meta,
}
use vibeos_fpga.Task.Queue.{
  queue, count, erase_at, shift_tasks_lem, length-shift_tasks, find_task_lem, count_absent,
  get_or-take, length-queue, without, count-without, erase_at-without,
}
use vibeos_fpga.Task.Invariant.{IsSched, IsLevel, queue-AreTasks, queue_once, update-IsSched}

module _ {s : Sched} (v : IsSched s) (k : ℕ) (hk : k < 4) (i : ℕ)
    (at_i : i < (level_of s k).running) where
  last : (level_of s k).running ≡ suc ((level_of s k).running - 1)
  last = omega arith

  cut-running : (cut s i (level_of s k)).running ≡ (level_of s k).running - 1
  unfolding cut
  cut-running = omega (arith, v.levels k hk)

  cut-tasks :
      (cut s i (level_of s k)).tasks
      ≡ shift_tasks s ((level_of s k).running - 1 - i) i (level_of s k).tasks
  unfolding cut
  cut-tasks = ap (λ (r : ℕ). shift_tasks s (r - i) i (level_of s k).tasks) cut-running

  pub cut-queue : queue (cut s i (level_of s k)) ≡ erase_at i (queue (level_of s k))
  cut-queue =
      rw (cut-running, cut-tasks)
        (shift_tasks_lem s i ((level_of s k).running - 1) (level_of s k).tasks (omega arith)
            (omega (arith, v.levels k hk)) (λ j p. queue-AreTasks v k hk j (omega arith))
          ∙ ap (λ (r : ℕ). erase_at i (take r (level_of s k).tasks)) (sym last))

  cut-now : (cut s i (level_of s k)).now < max 1 (cut s i (level_of s k)).running
  unfolding cut
  cut-now = ground (arith, v.levels k hk)

  pub cut-IsLevel : IsLevel (cut s i (level_of s k))
  cut-IsLevel = record {
    sized =
        ap (λ (t : List ℕ). length t) cut-tasks
        ∙ length-shift_tasks s ((level_of s k).running - 1 - i) i (level_of s k).tasks
        ∙ (v.levels k hk).sized;
    running_le = omega (arith, cut-running, v.levels k hk);
    now_lt = cut-now;
  }

-- The state that task_remove leaves, the task found at `i`.
abbrev pub removed : ℕ → ℕ → ℕ → Sched → Sched
removed id k i s = set_flags id task_sleeping (set_level k (cut s i (level_of s k)) s)

module _ {s : Sched} (v : IsSched s) (id : ℕ) (lt : id < s.task_top)
    (busy : (meta_of s id).flags ≡ task_running) (k : ℕ) (at_home : (meta_of s id).level ≡ k) where
  hk : k < 4
  hk = omega (arith, v.level_lt id lt)

  counted : count id (queue (level_of s k)) ≡ 1
  counted = v.accounted k id hk ∙ ground (arith, lt→ltb id s.task_top lt)

  found :
      (i : ℕ) × (i < (level_of s k).running)
      × (find_task (level_of s k).tasks id (level_of s k).running 0 ≡ i)
      × (get_or (queue (level_of s k)) i 0 ≡ id)
  found =
      elim (find_task_lem (level_of s k).tasks id (level_of s k).running 0 (level_of s k).running
        (omega arith)) [
          | inl (p, q, e) ↦ (
            find_task (level_of s k).tasks id (level_of s k).running 0,
            p,
            refl,
            get_or-take (level_of s k).running _ (level_of s k).tasks p ∙ e,
          )
          | inr (p, q) ↦ absurd (
              omega (
                arith,
                counted,
                count_absent id (level_of s k).running (level_of s k).tasks
                    (λ j h. q j (omega arith) h) (omega (arith, v.levels k hk)),
              ))
        ]

  task_remove-removed : task_remove id s ≡ removed id k found.0 s
  unfolding task_remove remove_at
  task_remove-removed = rw (at_home, level_ok, count_ok, found.2, here) refl
    where
      level_ok : is_bad_level k ≡ false
      level_ok = ground (arith, hk)

      count_ok : is_bad_count (level_of s k).running ≡ false
      count_ok = ground (arith, v.levels k hk)

      here : (found.0 == (level_of s k).running) ≡ false
      here = ne→== found.0 (level_of s k).running (omega (arith, found.1))

  removed-queue : queue (cut s found.0 (level_of s k)) ≡ without id (queue (level_of s k))
  removed-queue =
      cut-queue v k hk found.0 found.1
      ∙ erase_at-without id found.0 (queue (level_of s k)) inside found.3 (queue_once v k id hk)
    where
      inside : found.0 < length (queue (level_of s k))
      inside = omega (arith, found.1, length-queue (level_of s k) (omega (arith, v.levels k hk)))

  removed-IsSched : IsSched (removed id k found.0 s)
  removed-IsSched =
      update-IsSched k id (cut s found.0 (level_of s k))
        (record (meta_of s id) { flags = task_sleeping }) v hk lt
        (cut-IsLevel v k hk found.0 found.1) (v.level_lt id lt)
        (λ x.
          rw removed-queue
            (ground (arith, count-without x id (queue (level_of s k)), v.accounted k x hk)))
        (λ j ne. ground (arith, at_home))

  removed-queues :
      (j : ℕ)
      → queue (level_of (removed id k found.0 s) j)
        ≡ (if k == j then without id (queue (level_of s j)) else queue (level_of s j))
  removed-queues j = elim (ℕ_discrete k j) [
    | yes e ↦ rw (at_level, eq→== k j e) (rw (← e) removed-queue)
    | no ne ↦ rw (at_level, ne→== k j ne) refl
  ]
    where
      at_level :
          get_or (set s.task_levels k (cut s found.0 (level_of s k))) j no_level
          ≡ (if k == j then cut s found.0 (level_of s k) else level_of s j)
      at_level =
          get_or-set s.task_levels k j (cut s found.0 (level_of s k)) no_level
            (omega (arith, v.four_levels, hk))

  removed-meta :
      meta_of (removed id k found.0 s) id ≡ record (meta_of s id) { flags = task_sleeping }
  removed-meta =
      get_or-set_self s.task_meta id (record (meta_of s id) { flags = task_sleeping }) no_meta
        (omega (arith, v.metas, v.top_le))

-- What task_remove changes: the task's flags, and the queue of its level.
pub record Removed (id : ℕ) (s s' : Sched) : Type 0 where
  pub valid : IsSched s'
  pub same_top : s'.task_top ≡ s.task_top
  pub same_current : s'.current_task_id ≡ s.current_task_id
  pub meta : meta_of s' id ≡ record (meta_of s id) { flags = task_sleeping }
  pub queues :
      (j : ℕ)
      → queue (level_of s' j) ≡ (
          if (meta_of s id).level == j
          then without id (queue (level_of s j))
          else queue (level_of s j))

-- task_remove of a running task takes it out of its level's queue and keeps the order of the others.
pub task_remove_lem :
    (id : ℕ) (s : Sched)
    → IsSched s
    → id < s.task_top
    → (meta_of s id).flags ≡ task_running
    → Removed id s (task_remove id s)
task_remove_lem id s v lt busy =
    subst (Removed id s) (sym (task_remove-removed v id lt busy (meta_of s id).level refl))
      (record {
        valid = removed-IsSched v id lt busy (meta_of s id).level refl;
        same_top = refl;
        same_current = refl;
        meta = removed-meta v id lt busy (meta_of s id).level refl;
        queues = removed-queues v id lt busy (meta_of s id).level refl;
      })
