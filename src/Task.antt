-- ===== src/Task.antt =====
-- vibeos/task.c: the multi-level round-robin scheduler.
--
-- An `int` is a 32-bit word in two's complement. The switch itself (sys.s) is not modelled: task_go
-- and task_os tell which context would be left and which entered. Of a context only the two
-- registers that task.c reads and writes are kept.
pub mod Queue
pub mod Invariant
pub mod Remove
pub mod Steps
pub mod Create
pub mod Kept
pub mod Choose
pub mod Next
pub mod Calls
mod Tests
use vibeos_fpga.Common.{
  ℕ, zero, suc, ◌+◌, ◌-◌, ◌*◌, ◌%◌, ◌^◌, bit_and, Bool, not, ◌&&◌, ◌||◌, Option, none, some, List,
  ◌==◌, if◌then◌else◌, add32, sub32, slt, sle, minus_one, get_or, set, replicate,
}

abbrev pub max_tasks : ℕ
max_tasks = 16

abbrev pub max_tasklevels : ℕ
max_tasklevels = 4

abbrev pub stack_size : ℕ
stack_size = 65536

abbrev pub task_unused : ℕ
task_unused = 0

abbrev pub task_sleeping : ℕ
task_sleeping = 1

abbrev pub task_running : ℕ
task_running = 2

abbrev pub level0_quota : ℕ
level0_quota = 3

pub record TaskLevel : Type 0 where
  pub tasks : List ℕ
  pub running : ℕ
  pub now : ℕ

pub record TaskMeta : Type 0 where
  pub flags : ℕ
  pub level : ℕ
  pub priority : ℕ

pub record Context : Type 0 where
  pub ra : ℕ
  pub sp : ℕ

-- The globals. `stack_base` is the address of task_stack; `ctx_now` is the index of the context it
-- points to, or -1 for ctx_os.
pub record Sched : Type 0 where
  pub stack_base : ℕ
  pub ctx_os : Context
  pub ctx_tasks : List Context
  pub ctx_now : ℕ
  pub task_levels : List TaskLevel
  pub task_meta : List TaskMeta
  pub current_task_id : ℕ
  pub current_level : ℕ
  pub current_level_quota : ℕ
  pub task_top : ℕ

abbrev pub no_context : Context
no_context = record { ra = 0; sp = 0 }

abbrev pub no_level : TaskLevel
no_level = record { tasks = replicate 16 0; running = 0; now = 0 }

abbrev pub no_meta : TaskMeta
no_meta = record { flags = 0; level = 0; priority = 0 }

abbrev pub meta_of : Sched → ℕ → TaskMeta
meta_of s i = get_or s.task_meta i no_meta

abbrev pub level_of : Sched → ℕ → TaskLevel
level_of s k = get_or s.task_levels k no_level

abbrev pub context_of : Sched → ℕ → Context
context_of s i = get_or s.ctx_tasks i no_context

abbrev pub set_meta : ℕ → TaskMeta → Sched → Sched
set_meta i m s = record s { task_meta = set s.task_meta i m }

abbrev pub set_level : ℕ → TaskLevel → Sched → Sched
set_level k l s = record s { task_levels = set s.task_levels k l }

abbrev pub set_flags : ℕ → ℕ → Sched → Sched
set_flags i f s = set_meta i (record (meta_of s i) { flags = f }) s

pub task_init : Sched → Sched
task_init s = record s {
  ctx_os = no_context;
  ctx_tasks = replicate 16 no_context;
  task_levels = replicate 4 no_level;
  task_meta = replicate 16 no_meta;
  ctx_now = minus_one;
  current_task_id = minus_one;
  current_level = 0;
  current_level_quota = level0_quota;
  task_top = 0;
}

-- `level < 0 || level >= MAX_TASKLEVELS`
abbrev pub is_bad_level : ℕ → Bool
is_bad_level level = slt level 0 || sle max_tasklevels level

-- `running < 0 || running > MAX_TASKS`
abbrev pub is_bad_count : ℕ → Bool
is_bad_count running = slt running 0 || slt max_tasks running

-- `task_id < 0 || task_id >= taskTop`
abbrev pub is_bad_task : Sched → ℕ → Bool
is_bad_task s task_id = slt task_id 0 || sle s.task_top task_id

-- A level with an impossible count is emptied.
abbrev pub repaired : TaskLevel → TaskLevel
repaired tl = if is_bad_count tl.running then record tl { running = 0; now = 0 } else tl

-- task_add at the level of the task; `none` is its panic.
pub add_at : ℕ → ℕ → Sched → Option Sched
add_at task_id level s =
    let tl = repaired (level_of s level) in
    if sle max_tasks tl.running
    then none
    else some (
        set_flags task_id task_running (
          set_level level
            (record tl { tasks = set tl.tasks tl.running task_id; running = add32 tl.running 1 })
            s))

pub task_add : ℕ → Sched → Option Sched
task_add task_id s =
    let level = (meta_of s task_id).level in
    if is_bad_level level
    then add_at task_id 0 (set_meta task_id (record (meta_of s task_id) { level = 0 }) s)
    else add_at task_id level s

-- The search loop of task_remove: the index of `task_id` among the `left` entries from `i` on, or
-- the end.
pub find_task : List ℕ → ℕ → ℕ → ℕ → ℕ
find_task tasks task_id zero i = i
find_task tasks task_id (suc left) i =
    let rest = find_task tasks task_id left (suc i) in
    if get_or tasks i 0 == task_id then i else rest

-- The loop that closes the gap: `left` entries from `i` on are taken from the entry behind.
pub shift_tasks : Sched → ℕ → ℕ → List ℕ → List ℕ
shift_tasks s zero i tasks = tasks
shift_tasks s (suc left) i tasks =
    let next = get_or tasks (i + 1) 0 in
    shift_tasks s left (suc i) (set tasks i (if is_bad_task s next then 0 else next))

-- The entry at `i` taken out of the level.
pub cut : Sched → ℕ → TaskLevel → TaskLevel
cut s i tl =
    let running = sub32 tl.running 1 in
    let now = if slt i tl.now then sub32 tl.now 1 else tl.now in
    record {
      tasks = shift_tasks s (running - i) i tl.tasks;
      running = running;
      now = if sle running now then 0 else now;
    }

pub remove_at : ℕ → ℕ → Sched → Sched
remove_at task_id level s =
    let tl = level_of s level in
    if is_bad_count tl.running
    then set_flags task_id task_sleeping (set_level level (record tl { running = 0; now = 0 }) s)
    else let i = find_task tl.tasks task_id tl.running 0 in
      if i == tl.running
      then s
      else set_flags task_id task_sleeping (set_level level (cut s i tl) s)

pub task_remove : ℕ → Sched → Sched
task_remove task_id s =
    let level = (meta_of s task_id).level in
    if is_bad_level level
    then set_meta task_id (record (meta_of s task_id) { level = 0; flags = task_sleeping }) s
    else remove_at task_id level s

-- The first level from `i` on, of `left`, that has a task to run.
pub first_level : Sched → ℕ → ℕ → Option ℕ
first_level s zero i = none
first_level s (suc left) i =
    let rest = first_level s left (suc i) in if slt 0 (level_of s i).running then some i else rest

pub task_switchsub : Sched → Sched
task_switchsub s = elim (first_level s max_tasklevels 0) [
  | none ↦ record s { current_level = 0; current_level_quota = level0_quota }
  | some i ↦ record s {
    current_level = i;
    current_level_quota = if i == 0 then level0_quota else 1;
  }
]

-- The arguments of task_run as it clamps them.
abbrev pub run_level : Sched → ℕ → ℕ → ℕ
run_level s task_id level =
    let level' = if slt level 0 then (meta_of s task_id).level else level in
    if sle max_tasklevels level' then 3 else level'

abbrev pub run_priority : ℕ → ℕ
run_priority priority = if sle priority 0 then 1 else priority

pub task_run : ℕ → ℕ → ℕ → Sched → Option Sched
task_run task_id level priority s =
    if is_bad_task s task_id
    then some s
    else let level' = run_level s task_id level in
      let moves =
        (meta_of s task_id).flags == task_running && not ((meta_of s task_id).level == level') in
      let s1 = if moves then task_remove task_id s else s in
      let s2 =
        set_meta task_id
          (record (meta_of s1 task_id) { level = level'; priority = run_priority priority }) s1 in
      if (meta_of s2 task_id).flags == task_running
      then some (task_switchsub s2)
      else elim (task_add task_id s2) [ none ↦ none | some s3 ↦ some (task_switchsub s3) ]

-- The context of a task that is about to start at `task`.
pub fresh_context : Sched → ℕ → ℕ → Context
fresh_context s i task = record {
  ra = task;
  sp = bit_and (add32 s.stack_base ((i + 1) * stack_size % 2 ^ 32)) (2 ^ 32 - 1 - 0xf);
}

abbrev pub asleep : TaskMeta
asleep = record { flags = task_sleeping; level = 0; priority = 1 }

-- task_create: the new task's id; `none` is a panic.
pub task_create : ℕ → ℕ → ℕ → Sched → Option (ℕ × Sched)
task_create task level priority s =
    if sle max_tasks s.task_top
    then none
    else let i = s.task_top in
      let s1 = record s {
        task_top = add32 i 1;
        ctx_tasks = set s.ctx_tasks i (fresh_context s i task);
        task_meta = set s.task_meta i asleep;
      } in
      elim (task_run i level priority s1) [ none ↦ none | some s2 ↦ some (i, s2) ]

pub task_reset : ℕ → ℕ → ℕ → ℕ → Sched → Option Sched
task_reset task_id task level priority s =
    if is_bad_task s task_id
    then some s
    else let s1 = if (meta_of s task_id).flags == task_running then task_remove task_id s else s in
      task_run task_id level priority (record s1 {
        ctx_tasks = set s1.ctx_tasks task_id (fresh_context s1 task_id task);
        task_meta = set s1.task_meta task_id asleep;
      })

-- What a call does beside its return: it goes on, or switches between two contexts (-1 is ctx_os).
pub data Switch : Type 0 where
  stays : Switch
  switches : (from to : ℕ) → Switch

pub task_os : Sched → Switch × Sched
task_os s = if is_bad_task s s.current_task_id then (stays, s) else (
  switches s.current_task_id minus_one,
  record s { current_task_id = minus_one; ctx_now = minus_one },
)

pub task_sleep : ℕ → Sched → Switch × Sched
task_sleep task_id s =
    if is_bad_task s task_id
    then (stays, s)
    else if not ((meta_of s task_id).flags == task_running)
    then (stays, s)
    else let s1 = task_switchsub (task_remove task_id s) in
      if task_id == s.current_task_id then task_os s1 else (stays, s1)

pub task_wake : ℕ → Sched → Option Sched
task_wake task_id s =
    if is_bad_task s task_id
    then some s
    else if (meta_of s task_id).flags == task_running
    then some s
    else elim (task_add task_id s) [ none ↦ none | some s1 ↦ some (task_switchsub s1) ]

pub task_current : Sched → ℕ
task_current s = s.current_task_id

pub task_sleep_current : Sched → Switch × Sched
task_sleep_current s =
    if sle 0 s.current_task_id then task_sleep s.current_task_id s else (stays, s)

-- The round over the levels in task_next: steps `step` to `step + left - 1`. `current_level` is not
-- negative (`Invariant`), so the remainder is that of unsigned numbers.
pub next_level : Sched → ℕ → ℕ → Option ℕ
next_level s zero step = none
next_level s (suc left) step =
    let rest = next_level s left (suc step) in
    let level = add32 s.current_level step % max_tasklevels in
    if slt 0 (level_of s level).running then some level else rest

abbrev pub enter_level : ℕ → Sched → Sched
enter_level level s = record s {
  current_level = level;
  current_level_quota = if level == 0 then level0_quota - 1 else 0;
}

-- The level that task_next chooses.
pub choose_level : Sched → Option ℕ × Sched
choose_level s =
    if not (is_bad_level s.current_level)
      && (slt 0 (level_of s s.current_level).running && slt 0 s.current_level_quota)
    then (some s.current_level, record s { current_level_quota = sub32 s.current_level_quota 1 })
    else elim (next_level s max_tasklevels 1) [
      | some level ↦ (some level, enter_level level s)
      | none ↦ elim (first_level s max_tasklevels 0) [
        | some level ↦ (some level, enter_level level s)
        | none ↦ (none, s)
      ]
    ]

-- The position that the level goes on to.
abbrev pub advance : TaskLevel → ℕ → TaskLevel
advance tl now = record tl { now = if sle tl.running (add32 now 1) then 0 else add32 now 1 }

-- `ra == 0 || sp == 0`
abbrev pub is_dead : Context → Bool
is_dead c = c.ra == 0 || c.sp == 0

-- The task at the turn of the level: -1 if it cannot run.
pub pick : ℕ → Sched → ℕ × Sched
pick level s =
    let tl = level_of s level in
    if sle tl.running 0
    then (minus_one, s)
    else let now = if sle tl.running tl.now then 0 else tl.now in
      let task_id = get_or tl.tasks now 0 in
      let s1 = set_level level (advance tl now) s in
      if is_bad_task s1 task_id
      then (minus_one, s1)
      else if not ((meta_of s1 task_id).flags == task_running)
      then (minus_one, s1)
      else if is_dead (context_of s1 task_id)
      then (minus_one, task_remove task_id s1)
      else (task_id, s1)

pub task_next : Sched → ℕ × Sched
task_next s =
    let (chosen, s1) = choose_level s in
    elim chosen [ none ↦ (minus_one, s1) | some level ↦ pick level s1 ]

pub task_go : ℕ → Sched → Switch × Sched
task_go i s =
    if is_bad_task s i
    then (stays, s)
    else if not ((meta_of s i).flags == task_running)
    then (stays, s)
    else if is_dead (context_of s i)
    then (stays, task_remove i s)
    else (switches minus_one i, record s { current_task_id = i; ctx_now = i })
