-- ===== src/Task/Next.antt =====
-- vibeos/task.c: task_next, the choice of the task that runs next.
use mathlib.Core.Path.{subst}
use native.Mathlib.Decide.{ℕ_discrete}
use vibeos_fpga.Common.{
  ℕ, ◌+◌, ◌<◌, max, ◌≡◌, refl, ◌∙◌, ap, true, false, ◌⊎◌, inl, inr, ◌==◌, if◌then◌else◌, add32, sle,
  minus_one, arith, get_or, set, Bool-cases, eq→==, ne→==, ==-refl, length-set, get_or-set,
}
use vibeos_fpga.Task.{
  Sched, TaskLevel, TaskMeta, task_running, task_sleeping, meta_of, level_of, context_of, set_level,
  is_bad_task, task_remove, is_dead, choose_level, advance, pick, task_next, no_level,
}
use vibeos_fpga.Task.Queue.{queue, count, count_present, get_or-take, length-queue}
use vibeos_fpga.Task.Invariant.{IsSched, is_good_task, queue-lt}
use vibeos_fpga.Task.Remove.{task_remove_lem}
use vibeos_fpga.Task.Steps.{enter-IsSched}
use vibeos_fpga.Task.Choose.{IsIdle, Chosen, choose_level_lem}

-- The turn of a level moves on within its queue.
turn-IsSched :
    (k now : ℕ) {s : Sched}
    → IsSched s
    → k < 4
    → now < max 1 (level_of s k).running
    → IsSched (set_level k (record (level_of s k) { now = now }) s)
turn-IsSched k now {s} v hk lt = record {
  four_levels = length-set s.task_levels k _ ∙ v.four_levels;
  metas = v.metas;
  contexts = v.contexts;
  top_le = v.top_le;
  current_lt = v.current_lt;
  current = v.current;
  level_lt = v.level_lt;
  levels = λ j p. elim (ℕ_discrete k j) [
    | yes e ↦
        rw (level_at j, eq→== k j e)
          (record {
            sized = (v.levels k hk).sized;
            running_le = (v.levels k hk).running_le;
            now_lt = lt;
          })
    | no ne ↦ rw (level_at j, ne→== k j ne) (v.levels j p)
  ];
  accounted = λ j x p. elim (ℕ_discrete k j) [
    | yes e ↦ rw (level_at j, eq→== k j e) (rw (← e) (v.accounted k x hk))
    | no ne ↦ rw (level_at j, ne→== k j ne) (v.accounted j x p)
  ];
}
  where
    level_at :
        (j : ℕ)
        → get_or (set s.task_levels k (record (level_of s k) { now = now })) j no_level
          ≡ (if k == j then record (level_of s k) { now = now } else level_of s j)
    level_at j =
        get_or-set s.task_levels k j (record (level_of s k) { now = now }) no_level
          (omega (arith, v.four_levels))

-- The entry whose turn it is at level `k`.
abbrev pub turn_of : Sched → ℕ → ℕ
turn_of s k = get_or (level_of s k).tasks (level_of s k).now 0

-- The turn behind the present one, round the queue.
abbrev pub next_turn : TaskLevel → ℕ
next_turn tl = if tl.now + 1 == tl.running then 0 else tl.now + 1

module _ {s : Sched} (v : IsSched s) (k : ℕ) (hk : k < 4)
    (some_run : 0 < (level_of s k).running) where
  turn-lt : turn_of s k < s.task_top
  turn-lt =
      subst (λ (t : ℕ). t < s.task_top)
        (get_or-take (level_of s k).running (level_of s k).now (level_of s k).tasks
          (omega (arith, v.levels k hk)))
        (queue-lt v k (level_of s k).now hk (
          omega (arith, v.levels k hk, length-queue (level_of s k) (omega (arith, v.levels k hk)))))

  turn-count : 0 < count (turn_of s k) (queue (level_of s k))
  turn-count =
      subst (λ (t : ℕ). 0 < count t (queue (level_of s k)))
        (get_or-take (level_of s k).running (level_of s k).now (level_of s k).tasks
          (omega (arith, v.levels k hk)))
        (count_present (level_of s k).now (queue (level_of s k)) (
          omega (arith, v.levels k hk, length-queue (level_of s k) (omega (arith, v.levels k hk)))))

  -- The task whose turn it is runs at that level.
  turn-runs :
      ((meta_of s (turn_of s k)).flags ≡ task_running) × ((meta_of s (turn_of s k)).level ≡ k)
  turn-runs =
      let c = v.accounted k (turn_of s k) hk in
      (ground (arith, c, turn-count), ground (arith, c, turn-count))

  advance_lem :
      advance (level_of s k) (level_of s k).now
      ≡ record (level_of s k) { now = next_turn (level_of s k) }
  advance_lem = ap (λ (n : ℕ). record (level_of s k) { now = n }) moves_on
    where
      moves_on :
          (if sle (level_of s k).running (add32 (level_of s k).now 1)
            then 0
            else add32 (level_of s k).now 1)
          ≡ next_turn (level_of s k)
      moves_on = ground (arith, v.levels k hk)

  -- The state in which the level's turn has moved on.
  abbrev pub turned : Sched
  turned = set_level k (record (level_of s k) { now = next_turn (level_of s k) }) s

  turned-IsSched : IsSched turned
  turned-IsSched = turn-IsSched k (next_turn (level_of s k)) v hk (ground (arith, v.levels k hk))

  good : is_bad_task s (turn_of s k) ≡ false
  good = is_good_task s (turn_of s k) v.top_le turn-lt

  not_empty : sle (level_of s k).running 0 ≡ false
  not_empty = ground (arith, v.levels k hk)

  in_queue : sle (level_of s k).running (level_of s k).now ≡ false
  in_queue = ground (arith, v.levels k hk)

  pick-alive : is_dead (context_of s (turn_of s k)) ≡ false → pick k s ≡ (turn_of s k, turned)
  unfolding pick
  pick-alive alive = rw (not_empty, in_queue, good, eq→== _ _ turn-runs.0, alive, advance_lem) refl

  pick-dead :
      is_dead (context_of s (turn_of s k)) ≡ true
      → pick k s ≡ (minus_one, task_remove (turn_of s k) turned)
  unfolding pick
  pick-dead dead = rw (not_empty, in_queue, good, eq→== _ _ turn-runs.0, dead, advance_lem) refl

-- The result when level `k` has the turn: its task, and the turn moved on; or the task is put to
-- sleep, for its context is not set.
pub record Turn (s : Sched) (k : ℕ) (r : ℕ × Sched) : Type 0 where
  pub level_lt : k < 4
  pub some_run : 0 < (level_of s k).running
  pub runs_there :
      ((meta_of s (turn_of s k)).flags ≡ task_running) × ((meta_of s (turn_of s k)).level ≡ k)
  pub outcome :
      ((is_dead (context_of s (turn_of s k)) ≡ false)
        × (r.0 ≡ turn_of s k)
        × ((j : ℕ) → queue (level_of r.1 j) ≡ queue (level_of s j))
        × ((level_of r.1 k).now ≡ next_turn (level_of s k)))
      ⊎ ((is_dead (context_of s (turn_of s k)) ≡ true)
          × (r.0 ≡ minus_one)
          × ((meta_of r.1 (turn_of s k)).flags ≡ task_sleeping))

pub record Next (s : Sched) (r : ℕ × Sched) : Type 0 where
  pub valid : IsSched r.1
  pub same_top : r.1.task_top ≡ s.task_top
  pub choice : (IsIdle s × (r.0 ≡ minus_one)) ⊎ ((k : ℕ) × Turn s k r)

module _ {s : Sched} (v : IsSched s) (k : ℕ) (hk : k < 4)
    (some_run : 0 < (level_of s k).running) where
  turned-level :
      (j : ℕ)
      → level_of (turned v k hk some_run) j ≡ (
          if k == j then record (level_of s k) { now = next_turn (level_of s k) } else level_of s j)
  turned-level j =
      get_or-set s.task_levels k j (record (level_of s k) { now = next_turn (level_of s k) })
        no_level (omega (arith, v.four_levels))

  turned-queue : (j : ℕ) → queue (level_of (turned v k hk some_run) j) ≡ queue (level_of s j)
  turned-queue j = elim (ℕ_discrete k j) [
    | yes e ↦ rw (turned-level j, eq→== k j e) (rw (← e) refl)
    | no ne ↦ rw (turned-level j, ne→== k j ne) refl
  ]

  pick_lem : Next s (pick k s)
  pick_lem = elim (Bool-cases (is_dead (context_of s (turn_of s k)))) [
    | inr alive ↦ rw (pick-alive v k hk some_run alive) (record {
      valid = turned-IsSched v k hk some_run;
      same_top = refl;
      choice = inr (
        k,
        record {
          level_lt = hk;
          some_run = some_run;
          runs_there = turn-runs v k hk some_run;
          outcome = inl (
            alive,
            refl,
            turned-queue,
            ap (λ (t : TaskLevel). t.now) (rw (==-refl k) at (turned-level k)),
          );
        },
      );
    })
    | inl dead ↦
        let r =
          task_remove_lem (turn_of s k) (turned v k hk some_run) (turned-IsSched v k hk some_run)
            (turn-lt v k hk some_run) (turn-runs v k hk some_run).0 in
        rw (pick-dead v k hk some_run dead) (record {
          valid = r.valid;
          same_top = r.same_top;
          choice = inr (
            k,
            record {
              level_lt = hk;
              some_run = some_run;
              runs_there = turn-runs v k hk some_run;
              outcome = inr (dead, refl, ap (λ (m : TaskMeta). m.flags) r.meta);
            },
          );
        })
  ]

-- task_next returns -1 only if no level has a task, or the task whose turn it is has no context;
-- else it returns the task whose turn it is at some level, and that level's turn moves on.
pub task_next_lem : {s : Sched} → IsSched s → Next s (task_next s)
unfolding task_next
task_next_lem {s} v = go (choose_level_lem v)
  where
    go : Chosen s (choose_level s) → Next s (task_next s)
    go c = elim c.found [
      | inl (e, idle) ↦
          rw (task_next, e, c.state)
            (record {
              valid = enter-IsSched c.level c.quota v c.level_lt;
              same_top = refl;
              choice = inl (idle, refl);
            })
      | inr (k, e, hk, some_run) ↦
          let r = pick_lem (enter-IsSched c.level c.quota v c.level_lt) k hk some_run in
          rw (task_next, e, c.state)
            (record {
              valid = r.valid;
              same_top = r.same_top;
              choice = elim r.choice [
                | inl (idle, none_left) ↦ inl (idle, none_left)
                | inr (j, t) ↦ inr (
                  j,
                  record {
                    level_lt = t.level_lt;
                    some_run = t.some_run;
                    runs_there = t.runs_there;
                    outcome = t.outcome;
                  },
                )
              ];
            })
    ]
