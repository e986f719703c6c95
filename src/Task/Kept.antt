-- ===== src/Task/Kept.antt =====
-- vibeos/task.c: the operations that keep the set of tasks.
use native.Mathlib.Decide.{ℕ_discrete}
use vibeos_fpga.Common.{
  ℕ, ◌^◌, ◌<◌, ◌≡◌, ◌≢◌, refl, ◌∙◌, ap, inl, inr, Option, some, List, ◌==◌, sle, minus_one, arith,
  length, set, Bool-cases, eq→==, ne→==, length-set,
}
use vibeos_fpga.Task.{
  Sched, TaskMeta, Context, task_running, task_sleeping, meta_of, context_of, is_bad_task,
  task_remove, task_go, is_dead, asleep, task_run, fresh_context, task_reset, task_os, task_sleep,
  task_wake, task_sleep_current,
}
use vibeos_fpga.Task.Invariant.{IsSched, good_task-lt}
use vibeos_fpga.Task.Remove.{task_remove_lem}
use vibeos_fpga.Task.Create.{contexts-IsSched}
use vibeos_fpga.Task.Steps.{
  task_run_lem, wakes, set_meta-IsSched, current-IsSched, task_switchsub-same,
  task_switchsub-IsSched,
}

-- The call returns in a well-formed state with the same tasks.
pub record Kept (s : Sched) (o : Option Sched) : Type 0 where
  pub after : Sched
  pub returns : o ≡ some after
  pub valid : IsSched after
  pub same_top : after.task_top ≡ s.task_top

pub kept : (s s' : Sched) → IsSched s' → s'.task_top ≡ s.task_top → Kept s (some s')
kept s s' v e = record { after = s'; returns = refl; valid = v; same_top = e }

pub task_run-Kept :
    (id level priority : ℕ) {s : Sched}
    → IsSched s
    → id < 2 ^ 32
    → level < 2 ^ 32
    → Kept s (task_run id level priority s)
unfolding task_run
task_run-Kept id level priority {s} v w h = elim (Bool-cases (is_bad_task s id)) [
  | inl bad ↦ rw (task_run, bad) (kept s s v refl)
  | inr ok ↦
      let r = task_run_lem id level priority v (good_task-lt s id v.top_le w ok) h in
      record { after = r.after; returns = r.returns; valid = r.valid; same_top = r.same_top }
]

pub task_wake-Kept : (id : ℕ) {s : Sched} → IsSched s → id < 2 ^ 32 → Kept s (task_wake id s)
unfolding task_wake
task_wake-Kept id {s} v w = elim (Bool-cases (is_bad_task s id)) [
  | inl bad ↦ rw (task_wake, bad) (kept s s v refl)
  | inr ok ↦
      let lt : id < s.task_top = good_task-lt s id v.top_le w ok in
      elim (ℕ_discrete (meta_of s id).flags task_running) [
        | yes busy ↦ rw (task_wake, ok, eq→== _ _ busy) (kept s s v refl)
        | no idle ↦
            let r = rw (ne→== _ _ idle) at (wakes id v lt) in
            rw (task_wake, ok, ne→== _ _ idle)
              (record {
                after = r.after;
                returns = r.returns;
                valid = r.valid;
                same_top = r.same_top;
              })
      ]
]

pub task_os-Kept :
    {s : Sched} → IsSched s → IsSched (task_os s).1 × ((task_os s).1.task_top ≡ s.task_top)
unfolding task_os
task_os-Kept {s} v = elim (Bool-cases (is_bad_task s s.current_task_id)) [
  | inl bad ↦ rw (task_os, bad) (v, refl)
  | inr ok ↦ rw (task_os, ok) (current-IsSched minus_one minus_one v (inl refl), refl)
]

pub task_sleep-Kept :
    (id : ℕ) {s : Sched}
    → IsSched s
    → id < 2 ^ 32
    → IsSched (task_sleep id s).1 × ((task_sleep id s).1.task_top ≡ s.task_top)
unfolding task_sleep
task_sleep-Kept id {s} v w = elim (Bool-cases (is_bad_task s id)) [
  | inl bad ↦ rw (task_sleep, bad) (v, refl)
  | inr ok ↦
      let lt : id < s.task_top = good_task-lt s id v.top_le w ok in
      elim (ℕ_discrete (meta_of s id).flags task_running) [
        | no idle ↦ rw (task_sleep, ok, ne→== _ _ idle) (v, refl)
        | yes busy ↦
            let r = task_remove_lem id s v lt busy in
            let u = task_switchsub-IsSched r.valid in
            let top = task_switchsub-same (task_remove id s) ∙ r.same_top in
            elim (Bool-cases (id == s.current_task_id)) [
              | inl mine ↦
                  rw (task_sleep, ok, eq→== _ _ busy, mine)
                    ((task_os-Kept u).0, (task_os-Kept u).1 ∙ top)
              | inr other ↦ rw (task_sleep, ok, eq→== _ _ busy, other) (u, top)
            ]
      ]
]

pub task_sleep_current-Kept :
    {s : Sched}
    → IsSched s
    → IsSched (task_sleep_current s).1 × ((task_sleep_current s).1.task_top ≡ s.task_top)
unfolding task_sleep_current
task_sleep_current-Kept {s} v = elim (Bool-cases (sle 0 s.current_task_id)) [
  | inl is_task ↦
      rw (task_sleep_current, is_task)
        (task_sleep-Kept s.current_task_id v (ground (arith, v.current, v.top_le)))
  | inr is_os ↦ rw (task_sleep_current, is_os) (v, refl)
]

pub task_go-Kept :
    (id : ℕ) {s : Sched}
    → IsSched s
    → id < 2 ^ 32
    → IsSched (task_go id s).1 × ((task_go id s).1.task_top ≡ s.task_top)
unfolding task_go
task_go-Kept id {s} v w = elim (Bool-cases (is_bad_task s id)) [
  | inl bad ↦ rw (task_go, bad) (v, refl)
  | inr ok ↦
      let lt : id < s.task_top = good_task-lt s id v.top_le w ok in
      elim (ℕ_discrete (meta_of s id).flags task_running) [
        | no idle ↦ rw (task_go, ok, ne→== _ _ idle) (v, refl)
        | yes busy ↦
            let r = task_remove_lem id s v lt busy in
            elim (Bool-cases (is_dead (context_of s id))) [
              | inl dead ↦ rw (task_go, ok, eq→== _ _ busy, dead) (r.valid, r.same_top)
              | inr alive ↦
                  rw (task_go, ok, eq→== _ _ busy, alive) (current-IsSched id id v (inr lt), refl)
            ]
      ]
]

-- A task that does not run is put to sleep at level 0.
reset-IsSched :
    (id : ℕ) (cs : List Context) {s : Sched}
    → IsSched s
    → id < s.task_top
    → (meta_of s id).flags ≢ task_running
    → length cs ≡ 16
    → IsSched (record s { ctx_tasks = cs; task_meta = set s.task_meta id asleep })
reset-IsSched id cs {s} v lt idle h =
    contexts-IsSched cs (set_meta-IsSched id asleep v lt (omega arith) (λ k. ground (arith, idle)))
      h

-- The end of task_reset.
restarts :
    (id task level priority : ℕ) {s : Sched}
    → IsSched s
    → id < s.task_top
    → id < 2 ^ 32
    → level < 2 ^ 32
    → (meta_of s id).flags ≢ task_running
    → Kept s (
        task_run id level priority (record s {
          ctx_tasks = set s.ctx_tasks id (fresh_context s id task);
          task_meta = set s.task_meta id asleep;
        }))
restarts id task level priority {s} v lt w h idle =
    let cs = set s.ctx_tasks id (fresh_context s id task) in
    let k =
      task_run-Kept id level priority
        (reset-IsSched id cs v lt idle
          (length-set s.ctx_tasks id (fresh_context s id task) ∙ v.contexts))
        w h in
    record { after = k.after; returns = k.returns; valid = k.valid; same_top = k.same_top }

pub task_reset-Kept :
    (id task level priority : ℕ) {s : Sched}
    → IsSched s
    → id < 2 ^ 32
    → level < 2 ^ 32
    → Kept s (task_reset id task level priority s)
unfolding task_reset
task_reset-Kept id task level priority {s} v w h = elim (Bool-cases (is_bad_task s id)) [
  | inl bad ↦ rw (task_reset, bad) (kept s s v refl)
  | inr ok ↦
      let lt : id < s.task_top = good_task-lt s id v.top_le w ok in
      elim (ℕ_discrete (meta_of s id).flags task_running) [
        | no idle ↦
            rw (task_reset, ok, ne→== _ _ idle) (restarts id task level priority v lt w h idle)
        | yes busy ↦
            let r = task_remove_lem id s v lt busy in
            let k =
              restarts id task level priority r.valid (omega (arith, lt, r.same_top)) w h
                (no_longer _ (ap (λ (m : TaskMeta). m.flags) r.meta)) in
            rw (task_reset, ok, eq→== _ _ busy)
              (record {
                after = k.after;
                returns = k.returns;
                valid = k.valid;
                same_top = k.same_top ∙ r.same_top;
              })
      ]
]
  where
    no_longer : (f : ℕ) → f ≡ task_sleeping → f ≢ task_running
    no_longer f e = omega arith
