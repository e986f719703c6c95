-- ===== src/Task/Tests.antt =====
-- The scheduler after two tasks were created, one at level 0 and one at level 1.
use mathlib.Core.Option.{some-injective}
use mathlib.Core.Path.{subst}
use vibeos_fpga.Common.{
  ℕ, ◌+◌, ◌≡◌, refl, sym, ◌∙◌, some, List, [], ◌∷◌, ◌++◌, ◌==◌, if◌then◌else◌, minus_one, arith,
  replicate,
}
use vibeos_fpga.Task.{
  Sched, TaskMeta, TaskLevel, Context, no_context, no_level, no_meta, task_running, meta_of,
  level_of, context_of, task_add, task_remove, task_next, task_init, task_create, is_dead, task_os,
  task_sleep, task_switchsub, stays, switches,
}
use vibeos_fpga.Task
use vibeos_fpga.Task.Queue.{queue}
use vibeos_fpga.Task.Invariant.{IsSched, task_add_lem}
use vibeos_fpga.Task.Remove.{Removed, task_remove_lem}
use vibeos_fpga.Task.Create.{task_create_lem}
use vibeos_fpga.Task.Next.{Next, task_next_lem}
use vibeos_fpga.Task.Calls.{
  Call, creates, sleeps, asks_next, goes, wakes, sleeps_current, calls, calls-IsSched,
}

abbrev raw : Sched
raw = record {
  stack_base = 0x80100000;
  ctx_os = no_context;
  ctx_tasks = [];
  ctx_now = minus_one;
  task_levels = [];
  task_meta = [];
  current_task_id = minus_one;
  current_level = 0;
  current_level_quota = 3;
  task_top = 0;
}

abbrev script : List Call
script = creates 0x1000 0 1 ∷ creates 0x2000 1 1 ∷ []

-- Task 0 sleeps and task 1 runs.
abbrev two : Sched
two = record raw {
  ctx_tasks =
      record { ra = 0x1000; sp = 0x80110000 }
      ∷ record { ra = 0x2000; sp = 0x80120000 }
      ∷ replicate 14 no_context;
  task_levels =
      record { tasks = replicate 16 0; running = 0; now = 0 }
      ∷ record { tasks = 1 ∷ replicate 15 0; running = 1; now = 0 }
      ∷ no_level
      ∷ no_level
      ∷ [];
  task_meta =
      record { flags = 1; level = 0; priority = 1 }
      ∷ record { flags = 2; level = 1; priority = 1 }
      ∷ replicate 14 no_meta;
  current_level = 1;
  current_level_quota = 1;
  task_top = 2;
}

two_lem : calls (script ++ sleeps 0 ∷ []) (task_init raw) ≡ some two
unfolding task_init task_create Task.task_run Task.task_add Task.add_at Task.task_remove
    Task.remove_at Task.cut Task.find_task Task.shift_tasks Task.task_sleep Task.task_switchsub
    Task.first_level Task.fresh_context Task.task_os
two_lem = refl

two-IsSched : IsSched two
two-IsSched =
    let r =
      calls-IsSched (script ++ sleeps 0 ∷ []) raw (omega arith, (omega arith, (omega arith, tt)))
        (omega arith) in
    subst IsSched (some-injective _ _ (sym r.1 ∙ two_lem)) r.2

calls-IsSched_example :
    (s : Sched) × (calls
        (script ++ sleeps 0 ∷ asks_next ∷ goes 1 ∷ sleeps_current ∷ wakes 0 ∷ [])
        (task_init raw)
      ≡ some s)
    × IsSched s
    × (s.task_top ≡ 2)
calls-IsSched_example =
    calls-IsSched (script ++ sleeps 0 ∷ asks_next ∷ goes 1 ∷ sleeps_current ∷ wakes 0 ∷ []) raw
      (omega arith, (omega arith, (omega arith, (tt, (omega arith, (tt, (omega arith, tt)))))))
      (omega arith)

task_next_example : Next two (task_next two)
task_next_example = task_next_lem two-IsSched

task_remove_example : Removed 1 two (task_remove 1 two)
task_remove_example = task_remove_lem 1 two two-IsSched (omega arith) refl

task_create_example :
    (s : Sched) × (task_create 0x3000 2 1 two ≡ some (2, s))
    × IsSched s
    × (s.task_top ≡ 2 + 1)
    × ((meta_of s 2).flags ≡ task_running)
task_create_example = task_create_lem 0x3000 2 1 two-IsSched (omega arith) (omega arith)

task_add_example :
    (s : Sched) × (task_add 0 two ≡ some s)
    × IsSched s
    × (s.task_top ≡ 2)
    × ((meta_of s 0).flags ≡ task_running)
    × ((k : ℕ)
        → queue (level_of s k)
          ≡ (if 0 == k then queue (level_of two k) ++ 0 ∷ [] else queue (level_of two k)))
task_add_example = task_add_lem two-IsSched 0 (omega arith) (omega arith)
