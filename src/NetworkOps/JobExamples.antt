-- ===== src/NetworkOps/JobExamples.antt =====
-- Two targets of a job whose commits are interleaved, for the theorem about jobs.
use net_ops_guard.Prelude.{
  ℕ, Option, none, some, true, false, List, [], ◌∷◌, ◌==◌, ◌≡◌, refl, arith, Bool-cases, inl, inr,
  if◌then◌else◌,
}
use net_ops_guard.NetworkOps.Targets.{TargetStatus, pending, connecting, running, completed, failed}
use net_ops_guard.NetworkOps.Commands.{CommandText}
use net_ops_guard.NetworkOps.Targets.{job_partial}
use net_ops_guard.NetworkOps.Jobs.{
  Target, DeviceExecutionResult, Commit, Store, run_job, execute_one_target,
}
use net_ops_guard.NetworkOps.Jobs.Laws.{IsInterleaved, run_job_interleaved}

abbrev texts : CommandText
texts = record {
  strip = λ s. s;
  lower = λ s. s;
  startswith = λ s prefix. true;
  search = λ pattern s. false;
}

-- The device of target 1 answers, that of target 2 does not.
abbrev answers : ℕ → Option DeviceExecutionResult
answers id = if id == 1 then some (record { success = true; command_results = [] }) else none

abbrev target : ℕ → Target
target id = record { id = id; job_id = 5; status = pending }

abbrev two_targets : Store
two_targets = record { targets = target 1 ∷ target 2 ∷ []; executions = [] }

abbrev write : ℕ → TargetStatus → Commit
write id status = record { target_id = id; status = status; executions = [] }

-- Both connect before either ends.
abbrev mixed : List Target → List Commit
mixed ts =
    write 2 connecting
    ∷ write 1 connecting
    ∷ write 1 running
    ∷ write 2 failed
    ∷ write 1 completed
    ∷ []

mixed-IsInterleaved : IsInterleaved texts answers two_targets.targets (mixed two_targets.targets)
unfolding execute_one_target
mixed-IsInterleaved id = elim (Bool-cases (id == 1)) [
  | inl one ↦ let e : id ≡ 1 = ground (arith, one) in rw e refl
  | inr other ↦ elim (Bool-cases (id == 2)) [
    | inl two ↦ let e : id ≡ 2 = ground (arith, two) in rw e refl
    | inr neither ↦
        let a : (1 == id) ≡ false = ground (arith, other) in
        let b : (2 == id) ≡ false = ground (arith, neither) in rw (other, neither, a, b) refl
  ]
]

run_job_interleaved_example : (run_job texts answers mixed 5 two_targets).status ≡ job_partial
run_job_interleaved_example =
    run_job_interleaved texts answers mixed 5 two_targets mixed-IsInterleaved refl
