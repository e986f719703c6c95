-- ===== src/Task/Choose.antt =====
-- vibeos/task.c: the level that task_next chooses.
use native.Mathlib.Decide.{ℕ_discrete}
use vibeos_fpga.Common.{
  ℕ, zero, suc, ◌+◌, ◌%◌, ◌≤◌, ◌<◌, ◌≡◌, refl, true, false, not, ◌&&◌, ◌⊎◌, inl, inr, Option, none,
  some, add32, sub32, slt, arith, Bool-cases, Option-cases,
}
use vibeos_fpga.Task.{
  Sched, level_of, is_bad_level, first_level, next_level, choose_level, max_tasklevels,
}
use vibeos_fpga.Task.Invariant.{IsSched}
use vibeos_fpga.Task.Steps.{first_level_lem}

-- No level has a task to run.
abbrev pub IsIdle : Sched → Type 0
IsIdle s = (k : ℕ) → k < 4 → (level_of s k).running ≡ 0

first_level-none :
    (s : Sched) (left i k : ℕ)
    → first_level s left i ≡ none
    → i ≤ k
    → k < i + left
    → slt 0 (level_of s k).running ≡ false
unfolding first_level
first_level-none s zero i k e p q = absurd (omega arith)
first_level-none s (suc left) i k e p q = elim (Bool-cases (slt 0 (level_of s i).running)) [
  | inl hit ↦ absurd (ground (arith, e, hit))
  | inr miss ↦ elim (ℕ_discrete i k) [
    | yes same ↦ rw (← same) miss
    | no past ↦
        first_level-none s left (suc i) k (ground (arith, e, miss)) (omega arith) (omega arith)
  ]
]

next_level_lem :
    (s : Sched) (left step k : ℕ)
    → next_level s left step ≡ some k
    → (k < 4) × (slt 0 (level_of s k).running ≡ true)
unfolding next_level
next_level_lem s zero step k e = absurd (ground (arith, e))
next_level_lem s (suc left) step k e =
    elim (Bool-cases (slt 0 (level_of s (add32 s.current_level step % 4)).running)) [
      | inl hit ↦
          let same : add32 s.current_level step % 4 ≡ k = ground (arith, e, hit) in
          (omega arith, rw (← same) hit)
      | inr miss ↦ next_level_lem s left (suc step) k (ground (arith, e, miss))
    ]

-- What choose_level does: only the level in use and its quota change, and a level with a task is
-- found if there is one.
pub record Chosen (s : Sched) (r : Option ℕ × Sched) : Type 0 where
  pub level : ℕ
  pub quota : ℕ
  pub level_lt : level < 4
  pub state : r.1 ≡ record s { current_level = level; current_level_quota = quota }
  pub found :
      ((r.0 ≡ none) × IsIdle s)
      ⊎ ((k : ℕ) × (r.0 ≡ some k) × (k < 4) × (0 < (level_of s k).running))

pub positive :
    {s : Sched}
    → IsSched s
    → (k : ℕ) → k < 4
    → slt 0 (level_of s k).running ≡ true
    → 0 < (level_of s k).running
positive v k h e = ground (arith, v.levels k h, e)

pub choose_level_lem : {s : Sched} → IsSched s → Chosen s (choose_level s)
unfolding choose_level
choose_level_lem {s} v =
    elim (Bool-cases (
      not (is_bad_level s.current_level)
      && (slt 0 (level_of s s.current_level).running && slt 0 s.current_level_quota))) [
        | inl stay ↦
            rw (choose_level, stay)
              (record {
                level = s.current_level;
                quota = sub32 s.current_level_quota 1;
                level_lt = v.current_lt;
                state = refl;
                found = inr (
                  s.current_level,
                  refl,
                  v.current_lt,
                  positive v s.current_level v.current_lt (ground (arith, stay)),
                );
              })
        | inr leave ↦
            rw (choose_level, leave)
              (elim (Option-cases (next_level s max_tasklevels 1)) [
                | inr (k, e) ↦
                    let r = next_level_lem s 4 1 k e in
                    rw (choose_level, e)
                      (record {
                        level = k;
                        quota = _;
                        level_lt = r.0;
                        state = refl;
                        found = inr (k, refl, r.0, positive v k r.0 r.1);
                      })
                | inl past ↦
                    rw (choose_level, past)
                      (elim (Option-cases (first_level s max_tasklevels 0)) [
                        | inr (k, e) ↦
                            let r = first_level_lem s 4 0 k e in
                            let lt : k < 4 = omega (arith, r) in
                            rw (choose_level, e)
                              (record {
                                level = k;
                                quota = _;
                                level_lt = lt;
                                state = refl;
                                found = inr (k, refl, lt, positive v k lt r.2);
                              })
                        | inl empty ↦
                            rw (choose_level, empty)
                              (record {
                                level = s.current_level;
                                quota = s.current_level_quota;
                                level_lt = v.current_lt;
                                state = refl;
                                found = inl (
                                  refl,
                                  λ k lt. ground (
                                    arith,
                                    first_level-none s 4 0 k empty (omega arith) (omega arith),
                                    v.levels k lt,
                                  ),
                                );
                              })
                      ])
              ])
      ]
