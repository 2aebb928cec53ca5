-- ===== src/Examples/Runs.antt =====
-- Runs of the small machine.
use click_doom.Base.{ℕ, ◌+◌, ◌^◌, ◌<◌, ◌≡◌, ◌≤◌, refl, ap, [], ok, err, panic, arith, Outcome}
use click_doom.Spec.Halt.{HaltReason}
use click_doom.Spec.Checkpoint.{TraceConfig, validate, Hasher}
use click_doom.Memory.{set_text_region, load_image, new_memory}
use click_doom.Memory.Access.{read, write}
use click_doom.Spec.Map.{classify}
use click_doom.Decode.{decode}
use click_doom.Asm.{program, i_type, s_type, u_type}
use click_doom.Exec.{Cpu, new_cpu}
use click_doom.Exec.Step.{
  step_reporting, run_until_halt, declare_text, enable_decode_cache, load_cpu_image, Ran,
}
use click_doom.Exec.Runs.{StepGood, RunGood, step_reporting-Good, run_until_halt-Good}
use click_doom.Exec.Precise.{StepPrecise, step_reporting-Precise}
use click_doom.Exec.Cacheless.{uncache}
use click_doom.Exec.Setup.{Enabled, enable_decode_cache-Enabled, run_until_halt-enable_decode_cache}
use click_doom.Trace.Observers.{silent, both, IsQuiet, SameRun, run-both}
use click_doom.Trace.{collect, collector, run}
use click_doom.Trace.Laws.{Collected, collect-Collected}
use click_doom.Examples.Machine.{
  machine, fast_machine, machine-IsValid, fast_machine-IsValid, text-TextFits,
}

-- The halt of a run, and what `x2` holds then.
abbrev reason_of : Ran → Outcome ℕ HaltReason
reason_of (ok halt, c) = ok halt.reason
reason_of (err bound, c) = err bound
reason_of (panic, c) = panic

-- The store lands, the load reads it, and the fifth word stops the run; a bound of three is reached
-- before.
ends_at_ecall : reason_of (run_until_halt 9 machine) ≡ ok HaltReason.ecall
unfolding run_until_halt declare_text load_cpu_image set_text_region load_image new_cpu new_memory
    program read classify decode u_type i_type s_type write
ends_at_ecall = refl

run_until_halt-enable_decode_cache_example :
    uncache (run_until_halt 9 (enable_decode_cache machine).1) ≡ uncache (run_until_halt 9 machine)
run_until_halt-enable_decode_cache_example =
    run_until_halt-enable_decode_cache 9 machine machine-IsValid text-TextFits

machine-icount : machine.icount ≡ 0
unfolding declare_text load_cpu_image new_cpu
machine-icount = refl

machine-fits : machine.icount + 9 < 2 ^ 64
machine-fits = omega (arith, machine-icount)

fast_machine-fits : fast_machine.icount + 1 < 2 ^ 64
fast_machine-fits =
    let (returns, valid, same) =
      enable_decode_cache-Enabled machine machine-IsValid text-TextFits in
    omega (arith, machine-icount, ap (λ (c : Cpu). c.icount) same)

run_until_halt-Good_example : RunGood (run_until_halt 9 machine)
run_until_halt-Good_example = run_until_halt-Good 9 machine machine-IsValid machine-fits

step_reporting-Good_example : StepGood (step_reporting fast_machine)
step_reporting-Good_example =
    step_reporting-Good fast_machine fast_machine-IsValid fast_machine-fits

step_reporting-Precise_example : StepPrecise machine (step_reporting machine)
step_reporting-Precise_example = step_reporting-Precise machine machine-IsValid

enable_decode_cache-Enabled_example : Enabled machine (enable_decode_cache machine)
enable_decode_cache-Enabled_example =
    enable_decode_cache-Enabled machine machine-IsValid text-TextFits

-- A hasher, and a checkpoint after every second instruction.
abbrev sizes : Hasher
sizes = record { xxh64 = λ bytes. 0; streamed = λ slices. 1 }

abbrev every_second : TraceConfig
every_second = record { checkpoint_interval = 2; ram_hash_interval = 4 }

every_second-validate : validate every_second ≡ ok tt
unfolding validate
every_second-validate = refl

collect-Collected_example :
    Collected every_second 8 machine.icount [] (collect sizes every_second 8 8 machine)
collect-Collected_example =
    collect-Collected sizes every_second 8 (omega arith) 8 machine every_second-validate
      machine-IsValid enough
  where
    enough : 8 ≤ machine.icount + 8
    enough = omega arith

silent-IsQuiet : IsQuiet silent
silent-IsQuiet = ((λ t c. (refl, refl)), (λ t c pc insn. (refl, refl)))

run-both_example :
    SameRun
      (run sizes every_second collector 8 8 [] machine)
      (run sizes every_second (both collector silent) 8 8 ([], tt) machine)
run-both_example = run-both sizes every_second collector silent 8 8 [] tt machine silent-IsQuiet
