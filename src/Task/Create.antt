-- ===== src/Task/Create.antt =====
-- vibeos/task.c: to create, restart, put to sleep and wake tasks.
use vibeos_fpga.Common.{
  ℕ, ◌+◌, ◌^◌, ◌<◌, ◌≡◌, refl, ◌∙◌, false, none, some, List, ◌==◌, if◌then◌else◌, add32, sle, arith,
  length, get_or, set, length-set, get_or-set,
}
use vibeos_fpga.Task.{
  Sched, Context, task_running, meta_of, no_meta, max_tasks, asleep, task_run, fresh_context,
  task_create,
}
use vibeos_fpga.Task.Invariant.{IsSched}
use vibeos_fpga.Task.Steps.{Started, task_run_lem}

-- The contexts do not matter to the queues.
pub contexts-IsSched :
    (cs : List Context) {s : Sched}
    → IsSched s
    → length cs ≡ 16
    → IsSched (record s { ctx_tasks = cs })
contexts-IsSched cs {s} v h = record {
  four_levels = v.four_levels;
  metas = v.metas;
  contexts = h;
  top_le = v.top_le;
  current_lt = v.current_lt;
  current = v.current;
  level_lt = v.level_lt;
  levels = v.levels;
  accounted = v.accounted;
}

-- A slot is given to a new task, which sleeps.
extended-IsSched :
    {s : Sched}
    → IsSched s
    → s.task_top < 16
    → IsSched
        (record s { task_top = add32 s.task_top 1; task_meta = set s.task_meta s.task_top asleep })
extended-IsSched {s} v lt = record {
  four_levels = v.four_levels;
  metas = length-set s.task_meta s.task_top asleep ∙ v.metas;
  contexts = v.contexts;
  top_le = omega arith;
  current_lt = v.current_lt;
  current = ground (arith, v.current);
  level_lt = λ x p. rw (meta_at x) (ground (arith, v.level_lt x));
  levels = v.levels;
  accounted = λ k x p. rw (meta_at x) (v.accounted k x p ∙ ground arith);
}
  where
    meta_at :
        (x : ℕ)
        → get_or (set s.task_meta s.task_top asleep) x no_meta
          ≡ (if s.task_top == x then asleep else meta_of s x)
    meta_at x = get_or-set s.task_meta s.task_top x asleep no_meta (omega (arith, v.metas))

-- With a slot left, task_create returns the next id and keeps the scheduler well formed, and the
-- task runs.
pub task_create_lem :
    (task level priority : ℕ) {s : Sched}
    → IsSched s
    → s.task_top < 16
    → level < 2 ^ 32
    → (s' : Sched) × (task_create task level priority s ≡ some (s.task_top, s'))
      × IsSched s'
      × (s'.task_top ≡ s.task_top + 1)
      × ((meta_of s' s.task_top).flags ≡ task_running)
unfolding task_create
task_create_lem task level priority {s} v lt h =
    rw (slot, r.returns) (r.after, refl, r.valid, r.same_top ∙ one_more, r.running_now)
  where
    slot : sle max_tasks s.task_top ≡ false
    slot = ground (arith, lt)

    one_more : add32 s.task_top 1 ≡ s.task_top + 1
    one_more = omega arith

    r :
        Started s.task_top
          (record s {
            task_top = add32 s.task_top 1;
            ctx_tasks = set s.ctx_tasks s.task_top (fresh_context s s.task_top task);
            task_meta = set s.task_meta s.task_top asleep;
          })
          (task_run s.task_top level priority (record s {
            task_top = add32 s.task_top 1;
            ctx_tasks = set s.ctx_tasks s.task_top (fresh_context s s.task_top task);
            task_meta = set s.task_meta s.task_top asleep;
          }))
    r =
        task_run_lem s.task_top level priority
          (contexts-IsSched (set s.ctx_tasks s.task_top (fresh_context s s.task_top task))
            (extended-IsSched v lt) (length-set s.ctx_tasks s.task_top _ ∙ v.contexts))
          (omega arith) h

-- With none left it panics.
pub task_create_full :
    (task level priority : ℕ) (s : Sched)
    → s.task_top ≡ 16
    → task_create task level priority s ≡ none
unfolding task_create
task_create_full task level priority s full = rw full refl
