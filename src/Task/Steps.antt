-- ===== src/Task/Steps.antt =====
-- vibeos/task.c: the operations keep the scheduler well-formed.
use native.Mathlib.Decide.{ℕ_discrete}
use vibeos_fpga.Common.{
  ℕ, zero, suc, ◌+◌, ◌^◌, ◌≤◌, ◌<◌, ◌≡◌, ◌≢◌, refl, sym, ◌∙◌, ap, true, false, ◌⊎◌, inl, inr,
  Option, none, some, List, ◌==◌, if◌then◌else◌, slt, minus_one, arith, get_or, set, Bool-cases,
  Option-cases, eq→==, ne→==, length-set, get_or-replicate, get_or-set,
}
use vibeos_fpga.Task.{
  Sched, TaskMeta, task_running, task_sleeping, meta_of, level_of, set_meta, is_bad_task, task_init,
  task_add, no_level, no_meta, max_tasklevels, first_level, task_switchsub, run_level, run_priority,
  task_run,
}
use vibeos_fpga.Task.Invariant.{IsSched, runs, runs_at, is_good_task, task_add_lem}
use vibeos_fpga.Task.Remove.{task_remove_lem}

-- The state after task_init.
pub task_init-IsSched : (s : Sched) → IsSched (task_init s)
unfolding task_init
task_init-IsSched s = record {
  four_levels = refl;
  metas = refl;
  contexts = refl;
  top_le = omega arith;
  current_lt = omega arith;
  current = inl refl;
  level_lt = λ x lt. absurd (omega arith);
  levels = λ k lt.
      rw (get_or-replicate 4 k no_level)
        (record { sized = refl; running_le = omega arith; now_lt = omega arith });
  accounted = λ k x lt. rw (get_or-replicate 4 k no_level) (ground arith);
}

pub task_init-empty : (s : Sched) → (task_init s).task_top ≡ 0
unfolding task_init
task_init-empty s = refl

-- The level and quota in use are changed.
pub enter-IsSched :
    (k quota : ℕ) {s : Sched}
    → IsSched s
    → k < 4
    → IsSched (record s { current_level = k; current_level_quota = quota })
enter-IsSched k quota {s} v lt = record {
  four_levels = v.four_levels;
  metas = v.metas;
  contexts = v.contexts;
  top_le = v.top_le;
  current_lt = lt;
  current = v.current;
  level_lt = v.level_lt;
  levels = v.levels;
  accounted = v.accounted;
}

-- The context and the task that run are changed.
pub current-IsSched :
    (id now : ℕ) {s : Sched}
    → IsSched s
    → (id ≡ minus_one) ⊎ (id < s.task_top)
    → IsSched (record s { current_task_id = id; ctx_now = now })
current-IsSched id now {s} v fit = record {
  four_levels = v.four_levels;
  metas = v.metas;
  contexts = v.contexts;
  top_le = v.top_le;
  current_lt = v.current_lt;
  current = fit;
  level_lt = v.level_lt;
  levels = v.levels;
  accounted = v.accounted;
}

pub first_level_lem :
    (s : Sched) (left i k : ℕ)
    → first_level s left i ≡ some k
    → (i ≤ k) × (k < i + left) × (slt 0 (level_of s k).running ≡ true)
unfolding first_level
first_level_lem s zero i k e = absurd (ground (arith, e))
first_level_lem s (suc left) i k e = elim (Bool-cases (slt 0 (level_of s i).running)) [
  | inl hit ↦
      let same : i ≡ k = ground (arith, e, hit) in (omega arith, omega arith, rw (← same) hit)
  | inr miss ↦
      let r = first_level_lem s left (suc i) k (ground (arith, e, miss)) in
      (omega (arith, r), omega (arith, r), r.2)
]

pub task_switchsub-IsSched : {s : Sched} → IsSched s → IsSched (task_switchsub s)
unfolding task_switchsub
task_switchsub-IsSched {s} v = elim (Option-cases (first_level s max_tasklevels 0)) [
  | inl e ↦ rw (task_switchsub, e) (enter-IsSched 0 3 v (omega arith))
  | inr (k, e) ↦
      rw (task_switchsub, e) (enter-IsSched k _ v (omega (arith, first_level_lem s 4 0 k e)))
]

pub task_switchsub-same : (s : Sched) → (task_switchsub s).task_top ≡ s.task_top
unfolding task_switchsub
task_switchsub-same s = elim (Option-cases (first_level s max_tasklevels 0)) [
  | inl e ↦ rw (task_switchsub, e) refl
  | inr (k, e) ↦ rw (task_switchsub, e) refl
]

task_switchsub-metas : (s : Sched) → (task_switchsub s).task_meta ≡ s.task_meta
unfolding task_switchsub
task_switchsub-metas s = elim (Option-cases (first_level s max_tasklevels 0)) [
  | inl e ↦ rw (task_switchsub, e) refl
  | inr (k, e) ↦ rw (task_switchsub, e) refl
]

-- A change of a task's entry that leaves where it runs.
pub set_meta-IsSched :
    (id : ℕ) (m : TaskMeta) {s : Sched}
    → IsSched s
    → id < s.task_top
    → m.level < 4
    → ((k : ℕ) → runs_at s.task_top m k id ≡ runs s k id)
    → IsSched (set_meta id m s)
set_meta-IsSched id m {s} v lt small same = record {
  four_levels = v.four_levels;
  metas = length-set s.task_meta id m ∙ v.metas;
  contexts = v.contexts;
  top_le = v.top_le;
  current_lt = v.current_lt;
  current = v.current;
  level_lt = λ x p. rw (meta_at x) (ground (arith, v.level_lt x));
  levels = v.levels;
  accounted = λ k x p. rw (meta_at x) (elim (ℕ_discrete id x) [
    | yes e ↦ rw (eq→== id x e) (v.accounted k x p ∙ sym (rw e at (same k)))
    | no ne ↦ rw (ne→== id x ne) (v.accounted k x p)
  ]);
}
  where
    meta_at :
        (x : ℕ) → get_or (set s.task_meta id m) x no_meta ≡ (if id == x then m else meta_of s x)
    meta_at x = get_or-set s.task_meta id x m no_meta (omega (arith, v.metas, v.top_le))

-- The call returns, in a well-formed state in which task `id` runs.
pub record Started (id : ℕ) (s : Sched) (o : Option Sched) : Type 0 where
  pub after : Sched
  pub returns : o ≡ some after
  pub valid : IsSched after
  pub same_top : after.task_top ≡ s.task_top
  pub running_now : (meta_of after id).flags ≡ task_running

started :
    (id : ℕ) {s : Sched}
    → IsSched s
    → (meta_of s id).flags ≡ task_running
    → Started id s (some (task_switchsub s))
started id {s} v busy = record {
  after = task_switchsub s;
  returns = refl;
  valid = task_switchsub-IsSched v;
  same_top = task_switchsub-same s;
  running_now =
      ap (λ (ms : List TaskMeta). (get_or ms id no_meta).flags) (task_switchsub-metas s) ∙ busy;
}

-- The end of task_run and task_wake.
pub wakes :
    (id : ℕ) {s : Sched}
    → IsSched s
    → id < s.task_top
    → Started id s (
        if (meta_of s id).flags == task_running
        then some (task_switchsub s)
        else elim (task_add id s) [ none ↦ none | some s1 ↦ some (task_switchsub s1) ])
wakes id {s} v lt = elim (ℕ_discrete (meta_of s id).flags task_running) [
  | yes busy ↦ rw (eq→== (meta_of s id).flags 2 busy) (started id v busy)
  | no idle ↦
      let r = task_add_lem v id lt idle in
      let t = started id r.2 r.4 in
      rw (ne→== (meta_of s id).flags 2 idle, r.1)
        (record {
          after = t.after;
          returns = t.returns;
          valid = t.valid;
          same_top = t.same_top ∙ r.3;
          running_now = t.running_now;
        })
]

run_level-lt :
    (s : Sched) (id level : ℕ)
    → level < 2 ^ 32
    → (meta_of s id).level < 4
    → run_level s id level < 4
run_level-lt s id level h small = ground arith

-- The task's entry with its new level and priority.
abbrev pub assigned : ℕ → ℕ → ℕ → Sched → Sched
assigned id level priority s =
    set_meta id (record (meta_of s id) { level = level; priority = priority }) s

assigned-IsSched :
    (id level priority : ℕ) {s : Sched}
    → IsSched s
    → id < s.task_top
    → level < 4
    → ((meta_of s id).flags ≢ task_running) ⊎ ((meta_of s id).level ≡ level)
    → IsSched (assigned id level priority s)
assigned-IsSched id level priority {s} v lt small (inl idle) =
    set_meta-IsSched id _ v lt small (λ k. ground (arith, idle))
assigned-IsSched id level priority {s} v lt small (inr same) =
    set_meta-IsSched id _ v lt small (λ k. ground (arith, same))

-- The end of task_run, after the task left the level it no longer belongs to.
starts :
    (id level priority : ℕ) {s : Sched}
    → IsSched s
    → id < s.task_top
    → level < 4
    → ((meta_of s id).flags ≢ task_running) ⊎ ((meta_of s id).level ≡ level)
    → Started id s (
        if (meta_of (assigned id level priority s) id).flags == task_running
        then some (task_switchsub (assigned id level priority s))
        else elim (task_add id (assigned id level priority s)) [
          | none ↦ none
          | some s1 ↦ some (task_switchsub s1)
        ])
starts id level priority {s} v lt small fit =
    let r = wakes id (assigned-IsSched id level priority v lt small fit) lt in
    record {
      after = r.after;
      returns = r.returns;
      valid = r.valid;
      same_top = r.same_top;
      running_now = r.running_now;
    }

-- task_run gives the task a level and a priority, and starts it.
pub task_run_lem :
    (id level priority : ℕ) {s : Sched}
    → IsSched s
    → id < s.task_top
    → level < 2 ^ 32
    → Started id s (task_run id level priority s)
unfolding task_run
task_run_lem id level priority {s} v lt h = elim (ℕ_discrete (meta_of s id).flags task_running) [
  | yes busy ↦ elim (ℕ_discrete (meta_of s id).level (run_level s id level)) [
    | yes same ↦
        rw (good, eq→== _ _ busy, eq→== _ _ same)
          (starts id (run_level s id level) (run_priority priority) v lt small (inr same))
    | no away ↦
        let r = task_remove_lem id s v lt busy in
        let t =
          starts id (run_level s id level) (run_priority priority) r.valid
            (omega (arith, lt, r.same_top)) small
            (inl (asleep_now _ (ap (λ (m : TaskMeta). m.flags) r.meta))) in
        rw (good, eq→== _ _ busy, ne→== _ _ away)
          (record {
            after = t.after;
            returns = t.returns;
            valid = t.valid;
            same_top = t.same_top ∙ r.same_top;
            running_now = t.running_now;
          })
  ]
  | no idle ↦
      rw (good, ne→== _ _ idle)
        (starts id (run_level s id level) (run_priority priority) v lt small (inl idle))
]
  where
    good : is_bad_task s id ≡ false
    good = is_good_task s id v.top_le lt

    small : run_level s id level < 4
    small = run_level-lt s id level h (v.level_lt id lt)

    asleep_now : (f : ℕ) → f ≡ task_sleeping → f ≢ task_running
    asleep_now f e = omega arith
