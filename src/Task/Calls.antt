-- ===== src/Task/Calls.antt =====
-- vibeos/task.c: sequences of calls, from task_init on.
use vibeos_fpga.Common.{
  ℕ, suc, ◌+◌, ◌^◌, ◌≤◌, ◌<◌, ◌≡◌, refl, Option, none, some, List, [], ◌∷◌, arith,
}
use vibeos_fpga.Task.{
  Sched, task_init, task_run, task_create, task_reset, task_os, task_sleep, task_wake,
  task_sleep_current, task_go, task_next,
}
use vibeos_fpga.Task.Invariant.{IsSched}
use vibeos_fpga.Task.Create.{task_create_lem}
use vibeos_fpga.Task.Steps.{task_init-IsSched, task_init-empty}
use vibeos_fpga.Task.Kept.{
  Kept, kept, task_run-Kept, task_wake-Kept, task_os-Kept, task_sleep-Kept, task_sleep_current-Kept,
  task_go-Kept, task_reset-Kept,
}
use vibeos_fpga.Task.Next.{task_next_lem}

-- The calls that the kernel and its tasks make, with 32-bit arguments.
pub data Call : Type 0 where
  creates : (task level priority : ℕ) → Call
  runs : (id level priority : ℕ) → Call
  resets : (id task level priority : ℕ) → Call
  sleeps : (id : ℕ) → Call
  wakes : (id : ℕ) → Call
  sleeps_current : Call
  returns_to_os : Call
  asks_next : Call
  goes : (id : ℕ) → Call

-- The state after a call; `none` is a panic.
abbrev pub call : Call → Sched → Option Sched
call (creates task level priority) s = elim (task_create task level priority s) [
  | none ↦ none
  | some r ↦ some r.1
]
call (runs id level priority) s = task_run id level priority s
call (resets id task level priority) s = task_reset id task level priority s
call (sleeps id) s = some (task_sleep id s).1
call (wakes id) s = task_wake id s
call sleeps_current s = some (task_sleep_current s).1
call returns_to_os s = some (task_os s).1
call asks_next s = some (task_next s).1
call (goes id) s = some (task_go id s).1

abbrev pub calls : List Call → Sched → Option Sched
calls [] s = some s
calls (c ∷ cs) s = elim (call c s) [ none ↦ none | some s' ↦ calls cs s' ]

-- The ids and levels are 32-bit words.
abbrev pub IsCall : Call → Type 0
IsCall (creates task level priority) = level < 2 ^ 32
IsCall (runs id level priority) = (id < 2 ^ 32) × (level < 2 ^ 32)
IsCall (resets id task level priority) = (id < 2 ^ 32) × (level < 2 ^ 32)
IsCall (sleeps id) = id < 2 ^ 32
IsCall (wakes id) = id < 2 ^ 32
IsCall (goes id) = id < 2 ^ 32
IsCall c = Unit {0}

abbrev pub AreCalls : List Call → Type 0
AreCalls [] = Unit {0}
AreCalls (c ∷ cs) = IsCall c × AreCalls cs

-- How many tasks the calls create.
abbrev pub creations : List Call → ℕ
creations [] = 0
creations (creates task level priority ∷ cs) = suc (creations cs)
creations (c ∷ cs) = creations cs

-- The calls all return, with `n` tasks more.
record Returns (n : ℕ) (s : Sched) (o : Option Sched) : Type 0 where
  after : Sched
  returns : o ≡ some after
  valid : IsSched after
  top : s.task_top + n ≡ after.task_top

go_on :
    (cs : List Call) {s : Sched} {o : Option Sched}
    → Kept s o
    → ((s' : Sched)
        → IsSched s'
        → s'.task_top ≡ s.task_top
        → Returns (creations cs) s' (calls cs s'))
    → Returns
        (creations cs)
        s
        (elim o as (λ x. Option Sched) [ none ↦ none | some s' ↦ calls cs s' ])
go_on cs {s} {o} k rest =
    let r = rest k.after k.valid k.same_top in
    rw k.returns (record {
      after = r.after;
      returns = r.returns;
      valid = r.valid;
      top = omega (arith, r.top, k.same_top);
    })

calls_lem :
    (cs : List Call) (s : Sched)
    → IsSched s
    → AreCalls cs
    → s.task_top + creations cs ≤ 16
    → Returns (creations cs) s (calls cs s)
calls_lem [] s v ok h = record { after = s; returns = refl; valid = v; top = omega arith }
calls_lem (creates task level priority ∷ cs) s v (w, ok) h =
    let c = task_create_lem task level priority v (omega arith) w in
    let r = calls_lem cs c.0 c.2 ok (omega (arith, c.3)) in
    rw (calls, call, c.1)
      (record {
        after = r.after;
        returns = r.returns;
        valid = r.valid;
        top = omega (arith, r.top, c.3);
      })
calls_lem (runs id level priority ∷ cs) s v (w, ok) h =
    go_on cs (task_run-Kept id level priority v w.0 w.1)
      (λ s' v' e. calls_lem cs s' v' ok (omega arith))
calls_lem (resets id task level priority ∷ cs) s v (w, ok) h =
    go_on cs (task_reset-Kept id task level priority v w.0 w.1)
      (λ s' v' e. calls_lem cs s' v' ok (omega arith))
calls_lem (wakes id ∷ cs) s v (w, ok) h =
    go_on cs (task_wake-Kept id v w) (λ s' v' e. calls_lem cs s' v' ok (omega arith))
calls_lem (sleeps id ∷ cs) s v (w, ok) h =
    let k = task_sleep-Kept id v w in
    go_on cs (kept s (task_sleep id s).1 k.0 k.1) (λ s' v' e. calls_lem cs s' v' ok (omega arith))
calls_lem (sleeps_current ∷ cs) s v (w, ok) h =
    let k = task_sleep_current-Kept v in
    go_on cs (kept s (task_sleep_current s).1 k.0 k.1)
      (λ s' v' e. calls_lem cs s' v' ok (omega arith))
calls_lem (returns_to_os ∷ cs) s v (w, ok) h =
    let k = task_os-Kept v in
    go_on cs (kept s (task_os s).1 k.0 k.1) (λ s' v' e. calls_lem cs s' v' ok (omega arith))
calls_lem (asks_next ∷ cs) s v (w, ok) h =
    let k = task_next_lem v in
    go_on cs (kept s (task_next s).1 k.valid k.same_top)
      (λ s' v' e. calls_lem cs s' v' ok (omega arith))
calls_lem (goes id ∷ cs) s v (w, ok) h =
    let k = task_go-Kept id v w in
    go_on cs (kept s (task_go id s).1 k.0 k.1) (λ s' v' e. calls_lem cs s' v' ok (omega arith))

-- Calls with 32-bit arguments from task_init on that create at most 16 tasks never panic, and leave a well-formed
-- scheduler with as many tasks as were created.
pub calls-IsSched :
    (cs : List Call) (s : Sched)
    → AreCalls cs
    → creations cs ≤ 16
    → (s' : Sched) × (calls cs (task_init s) ≡ some s') × IsSched s' × (s'.task_top ≡ creations cs)
calls-IsSched cs s ok few =
    let empty : (task_init s).task_top ≡ 0 = task_init-empty s in
    let r = calls_lem cs (task_init s) (task_init-IsSched s) ok (omega (arith, empty)) in
    (r.after, r.returns, r.valid, omega (arith, r.top, empty))
