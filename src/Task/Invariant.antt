-- ===== src/Task/Invariant.antt =====
-- The well-formedness of the scheduler: the run queues and the task table tell the same story.
use mathlib.Core.Path.{subst}
use native.Mathlib.Decide.{ℕ_discrete}
use vibeos_fpga.Common.{
  ℕ, suc, ◌+◌, ◌^◌, ◌≤◌, ◌<◌, max, ◌≡◌, ◌≢◌, refl, sym, ◌∙◌, ap, false, ◌⊎◌, some, [], ◌∷◌, ◌++◌,
  ltb, ◌==◌, if◌then◌else◌, minus_one, arith, length, get_or, set, eq→==, ne→==, length-set,
  get_or-set_self, get_or-set,
}
use vibeos_fpga.Task.{
  Sched, TaskLevel, TaskMeta, task_running, meta_of, level_of, set_meta, set_level, set_flags,
  is_bad_task, add_at, task_add, no_level, no_meta,
}
use vibeos_fpga.Task.Queue.{
  queue, count, take-set_end, AreTasks, get_or-take, length-queue, length-lt, count_present,
  count-append,
}

-- 1 if task `x` exists, is running and belongs to level `k`.
abbrev pub runs_at : ℕ → TaskMeta → ℕ → ℕ → ℕ
runs_at top m k x =
    if ltb x top
    then (if m.flags == task_running then (if m.level == k then 1 else 0) else 0)
    else 0

abbrev pub runs : Sched → ℕ → ℕ → ℕ
runs s k x = runs_at s.task_top (meta_of s x) k x

-- A level's array and its two indices.
pub record IsLevel (tl : TaskLevel) : Type 0 where
  pub sized : length tl.tasks ≡ 16
  pub running_le : tl.running ≤ 16
  pub now_lt : tl.now < max 1 tl.running

-- Each task stands in the queue of level `k` once if it runs there, and not at all otherwise.
pub record IsSched (s : Sched) : Type 0 where
  pub four_levels : length s.task_levels ≡ 4
  pub metas : length s.task_meta ≡ 16
  pub contexts : length s.ctx_tasks ≡ 16
  pub top_le : s.task_top ≤ 16
  pub current_lt : s.current_level < 4
  pub current : (s.current_task_id ≡ minus_one) ⊎ (s.current_task_id < s.task_top)
  pub level_lt : (x : ℕ) → x < s.task_top → (meta_of s x).level < 4
  pub levels : (k : ℕ) → k < 4 → IsLevel (level_of s k)
  pub accounted : (k x : ℕ) → k < 4 → count x (queue (level_of s k)) ≡ runs s k x

-- An id in range passes the check, and only such a 32-bit id.
pub is_good_task : (s : Sched) (x : ℕ) → s.task_top ≤ 16 → x < s.task_top → is_bad_task s x ≡ false
is_good_task s x h lt = ground arith

pub good_task-lt :
    (s : Sched) (x : ℕ) → s.task_top ≤ 16 → x < 2 ^ 32 → is_bad_task s x ≡ false → x < s.task_top
good_task-lt s x h w ok = ground arith

module _ {s : Sched} (v : IsSched s) where
  -- The entries of a run queue are tasks.
  pub queue-lt :
      (k i : ℕ)
      → k < 4
      → i < length (queue (level_of s k))
      → get_or (queue (level_of s k)) i 0 < s.task_top
  queue-lt k i h lt = ground (
    arith,
    count_present i (queue (level_of s k)) lt,
    v.accounted k (get_or (queue (level_of s k)) i 0) h,
  )

  pub queue_once : (k x : ℕ) → k < 4 → count x (queue (level_of s k)) ≤ 1
  queue_once k x h = ground (arith, v.accounted k x h)

  pub queue-AreTasks : (k : ℕ) → k < 4 → AreTasks s (level_of s k).running (level_of s k).tasks
  queue-AreTasks k h = λ i lt. is_good_task s (get_or (level_of s k).tasks i 0) v.top_le (
      subst (λ (t : ℕ). t < s.task_top)
        (get_or-take (level_of s k).running i (level_of s k).tasks lt)
        (queue-lt k i h (omega (arith, length-queue (level_of s k) fits))))
    where
      fits : (level_of s k).running ≤ length (level_of s k).tasks
      fits = omega (arith, v.levels k h)

  -- A level has room for a task that is not in it.
  pub room :
      (k x : ℕ)
      → k < 4
      → x < s.task_top
      → count x (queue (level_of s k)) ≡ 0
      → (level_of s k).running < 16
  room k x h lt missing = omega (
    arith,
    v.levels k h,
    length-queue (level_of s k) (omega (arith, v.levels k h)),
    length-lt 16 x (queue (level_of s k)) (λ i p. omega (arith, queue-lt k i h p, v.top_le))
        (λ y. queue_once k y h) (omega (arith, v.top_le)) missing,
  )

-- A level and the entry of one task in the table changed together.
pub update-IsSched :
    (k id : ℕ) (tl : TaskLevel) (m : TaskMeta) {s : Sched}
    → IsSched s
    → k < 4
    → id < s.task_top
    → IsLevel tl
    → m.level < 4
    → ((x : ℕ) → count x (queue tl) ≡ runs_at s.task_top (if id == x then m else meta_of s x) k x)
    → ((j : ℕ) → j ≢ k → runs_at s.task_top m j id ≡ runs s j id)
    → IsSched (set_meta id m (set_level k tl s))
update-IsSched k id tl m {s} v hk hid hl hm here away = record {
  four_levels = length-set s.task_levels k tl ∙ v.four_levels;
  metas = length-set s.task_meta id m ∙ v.metas;
  contexts = v.contexts;
  top_le = v.top_le;
  current_lt = v.current_lt;
  current = v.current;
  level_lt = λ x lt. rw (meta_at x) (ground (arith, v.level_lt x));
  levels = λ j lt. elim (ℕ_discrete k j) [
    | yes e ↦ rw (level_at j, eq→== k j e) hl
    | no ne ↦ rw (level_at j, ne→== k j ne) (v.levels j lt)
  ];
  accounted = λ j x lt. elim (ℕ_discrete k j) [
    | yes e ↦ rw (level_at j, meta_at x, eq→== k j e) (rw (← e) (here x))
    | no ne ↦
        rw (level_at j, meta_at x, ne→== k j ne)
          (elim (ℕ_discrete id x) [
            | yes e ↦
                rw (eq→== id x e) (v.accounted j x lt ∙ sym (rw e at (away j (λ f. ne (sym f)))))
            | no other ↦ rw (ne→== id x other) (v.accounted j x lt)
          ])
  ];
}
  where
    meta_at :
        (x : ℕ) → get_or (set s.task_meta id m) x no_meta ≡ (if id == x then m else meta_of s x)
    meta_at x = get_or-set s.task_meta id x m no_meta (omega (arith, v.metas, v.top_le))

    level_at :
        (j : ℕ) → get_or (set s.task_levels k tl) j no_level ≡ (if k == j then tl else level_of s j)
    level_at j = get_or-set s.task_levels k j tl no_level (omega (arith, v.four_levels))

abbrev pub with_task : ℕ → TaskLevel → TaskLevel
with_task id tl = record tl { tasks = set tl.tasks tl.running id; running = tl.running + 1 }

-- The state that task_add leaves: the task at the end of level `k`.
abbrev pub added : ℕ → ℕ → Sched → Sched
added id k s = set_flags id task_running (set_level k (with_task id (level_of s k)) s)

module _ {s : Sched} (v : IsSched s) (id : ℕ) (lt : id < s.task_top)
    (idle : (meta_of s id).flags ≢ task_running) where
  missing : (k : ℕ) → k < 4 → count id (queue (level_of s k)) ≡ 0
  missing k h = ground (arith, v.accounted k id h, idle)

  fits : (k : ℕ) → k < 4 → (level_of s k).running < length (level_of s k).tasks
  fits k h = omega (arith, room v k id h lt (missing k h), v.levels k h)

  added-IsLevel : (k : ℕ) → k < 4 → IsLevel (with_task id (level_of s k))
  added-IsLevel k h = record {
    sized = length-set (level_of s k).tasks (level_of s k).running id ∙ (v.levels k h).sized;
    running_le = omega (arith, fits k h, v.levels k h);
    now_lt = omega (arith, v.levels k h);
  }

  queue-with_task :
      (k : ℕ) → k < 4 → queue (with_task id (level_of s k)) ≡ queue (level_of s k) ++ id ∷ []
  queue-with_task k h =
      let one_more : (level_of s k).running + 1 ≡ suc (level_of s k).running = omega arith in
      rw one_more (take-set_end (level_of s k).tasks (level_of s k).running id (fits k h))

  task_add-added : task_add id s ≡ some (added id (meta_of s id).level s)
  unfolding task_add add_at
  task_add-added = ground (
    arith,
    v.level_lt id lt,
    v.levels (meta_of s id).level (v.level_lt id lt),
    room v (meta_of s id).level id (v.level_lt id lt) lt
        (missing (meta_of s id).level (v.level_lt id lt)),
  )

  added-IsSched : IsSched (added id (meta_of s id).level s)
  added-IsSched =
      update-IsSched (meta_of s id).level id (with_task id (level_of s (meta_of s id).level))
        (record (meta_of s id) { flags = task_running }) v (v.level_lt id lt) lt
        (added-IsLevel (meta_of s id).level (v.level_lt id lt)) (v.level_lt id lt)
        (λ x. rw (queue-with_task (meta_of s id).level (v.level_lt id lt)) (
          ground (
            arith,
            count-append x (queue (level_of s (meta_of s id).level)) (id ∷ []),
            v.accounted (meta_of s id).level x (v.level_lt id lt),
            idle,
          )))
        (λ j ne. ground (arith, idle))

  added-queue :
      (k : ℕ)
      → queue (level_of (added id (meta_of s id).level s) k) ≡ (
          if (meta_of s id).level == k
          then queue (level_of s k) ++ id ∷ []
          else queue (level_of s k))
  added-queue k = elim (ℕ_discrete (meta_of s id).level k) [
    | yes e ↦
        rw (at_level, eq→== (meta_of s id).level k e)
          (rw (← e) (queue-with_task (meta_of s id).level (v.level_lt id lt)))
    | no ne ↦ rw (at_level, ne→== (meta_of s id).level k ne) refl
  ]
    where
      at_level :
          get_or
            (set s.task_levels
              (meta_of s id).level
              (with_task id (level_of s (meta_of s id).level)))
            k
            no_level
          ≡ (if (meta_of s id).level == k
              then with_task id (level_of s (meta_of s id).level)
              else level_of s k)
      at_level =
          get_or-set s.task_levels (meta_of s id).level k
            (with_task id (level_of s (meta_of s id).level)) no_level
            (omega (arith, v.four_levels, v.level_lt id lt))

  -- task_add of a task that is not running puts it at the end of its level's queue, and never panics.
  pub task_add_lem :
      (s' : Sched) × (task_add id s ≡ some s')
      × IsSched s'
      × (s'.task_top ≡ s.task_top)
      × ((meta_of s' id).flags ≡ task_running)
      × ((k : ℕ)
          → queue (level_of s' k) ≡ (
              if (meta_of s id).level == k
              then queue (level_of s k) ++ id ∷ []
              else queue (level_of s k)))
  task_add_lem = (
    added id (meta_of s id).level s,
    task_add-added,
    added-IsSched,
    refl,
    ap (λ (m : TaskMeta). m.flags)
        (get_or-set_self s.task_meta id (record (meta_of s id) { flags = task_running }) no_meta
          (omega (arith, v.metas, v.top_le))),
    added-queue,
  )
