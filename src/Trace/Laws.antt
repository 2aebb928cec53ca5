-- ===== src/Trace/Laws.antt =====
-- What a collected trace holds: one line for every count at the cadence that the run passed.
use click_doom.Base.{
  append-nil, snoc-append, subst, ◌^◌, ◌<◌, ℕ, zero, suc, ◌+◌, ◌-◌, ◌≤◌, ◌≡◌, ◌∙◌, refl, sym, ap,
  Bool, true, false, List, [], ◌∷◌, ◌++◌, arith, ltb, if_both, if◌then◌else◌, Outcome, ok, err,
  panic,
}
use click_doom.Spec.Checkpoint.{
  TraceConfig, validate, is_checkpoint, is_ram_hash, Hasher, Checkpoint,
}
use click_doom.Exec.{Cpu}
use click_doom.Exec.Step.{Fetched, step_reporting}
use click_doom.Exec.Valid.{IsValid}
use click_doom.Exec.Runs.{StepGood, step_reporting-Good}
use click_doom.Exec.Precise.{StepPrecise, step_reporting-Precise}
use click_doom.Trace.{
  checkpoint_of, Stop, Ended, emitted, stepped, asserted, collector, rounds, run, collect,
}

-- The counts of the lines, and the counts at the cadence among the `n` that follow `at`.
unfoldable pub line_counts : List Checkpoint → List ℕ
line_counts [] = []
line_counts (line ∷ lines) = line.icount ∷ line_counts lines

unfoldable pub counts_after : TraceConfig → ℕ → ℕ → List ℕ
counts_after config at zero = []
counts_after config at (suc n) =
    let rest = counts_after config (at + 1) n in
    if is_checkpoint config (at + 1) then (at + 1) ∷ rest else rest

line_counts-snoc :
    (lines : List Checkpoint) (line : Checkpoint)
    → line_counts (lines ++ (line ∷ [])) ≡ line_counts lines ++ (line.icount ∷ [])
unfolding line_counts
line_counts-snoc [] line = refl
line_counts-snoc (x ∷ lines) line = ap (λ l. x.icount ∷ l) (line_counts-snoc lines line)

checkpoint_of-icount : (h : Hasher) (c : Cpu) (b : Bool) → (checkpoint_of h c b).icount ≡ c.icount
unfolding checkpoint_of
checkpoint_of-icount h c true = refl
checkpoint_of-icount h c false = refl

-- A run ends with a halt, or with its limit reached; not with an observer's stop, with fuel run out
-- or with a panic.
abbrev pub Finished : ℕ → Outcome (Unit {0}) Stop → Cpu → Type 0
Finished limit (ok (Stop.halted halt)) d = Unit
Finished limit (ok Stop.budget) d = limit ≤ d.icount
Finished limit (ok Stop.observer) d = ⊥
Finished limit (err u) d = ⊥
Finished limit panic d = ⊥

-- The run from a machine at count `start`, with the lines it had then.
pub record Collected (config : TraceConfig) (limit start : ℕ) (had : List Checkpoint)
    (r : Ended (List Checkpoint)) : Type 0 where
  pub finished : Finished limit r.0 r.2
  pub valid : IsValid r.2
  pub later : start ≤ r.2.icount
  pub lines : line_counts r.1 ≡ line_counts had ++ counts_after config start (r.2.icount - start)

module _ (h : Hasher) (config : TraceConfig) (limit : ℕ) (word : limit < 2 ^ 64) where
  emitted-counts :
      (c : Cpu) (start n : ℕ) (had : List Checkpoint)
      → c.icount ≡ start + 1
      → line_counts (emitted h config collector c had) ++ counts_after config (start + 1) n
        ≡ line_counts had ++ counts_after config start (suc n)
  unfolding counts_after
  emitted-counts c start n had e =
      by_test (is_checkpoint config c.icount) (ap (is_checkpoint config) e)
    where
      tail : List ℕ
      tail = counts_after config (start + 1) n

      by_test :
          (b : Bool)
          → b ≡ is_checkpoint config (start + 1)
          → line_counts
                (if b then had ++ (checkpoint_of h c (is_ram_hash config c.icount) ∷ []) else had)
              ++ tail
            ≡ line_counts had
              ++ (if is_checkpoint config (start + 1) then (start + 1) ∷ tail else tail)
      by_test true same = rw (sym same) (
          ap (λ l. l ++ tail) (line_counts-snoc had _)
          ∙ snoc-append (line_counts had) _ tail
          ∙ ap (λ x. line_counts had ++ (x ∷ tail)) (checkpoint_of-icount h c _ ∙ e))
      by_test false same = rw (sym same) refl

  stopped-Collected :
      (start : ℕ) (had : List Checkpoint) (r : Outcome (Unit {0}) Stop) (d : Cpu)
      → Finished limit r d
      → IsValid d
      → d.icount ≡ start
      → Collected config limit start had (r, had, d)
  unfolding counts_after
  stopped-Collected start had r d f v e = record {
    finished = f;
    valid = v;
    later = omega (arith, e);
    lines = sym (
        ap (λ n. line_counts had ++ counts_after config start n) (none_left)
        ∙ append-nil (line_counts had));
  }
    where
      none_left : d.icount - start ≡ 0
      none_left = omega (arith, e)

  further-Collected :
      (c : Cpu) (start : ℕ) (had : List Checkpoint) (r : Ended (List Checkpoint))
      → c.icount ≡ start + 1
      → Collected config limit c.icount (emitted h config collector c had) r
      → Collected config limit start had r
  further-Collected c start had r e k = record {
    finished = k.finished;
    valid = k.valid;
    later = omega (arith, e, k.later);
    lines =
        k.lines
        ∙ ap
            (λ s.
              line_counts (emitted h config collector c had)
              ++ counts_after config s (r.2.icount - s))
            e
        ∙ emitted-counts c start (r.2.icount - (start + 1)) had e
        ∙ ap (λ n. line_counts had ++ counts_after config start n) one_more;
  }
    where
      one_more : suc (r.2.icount - (start + 1)) ≡ r.2.icount - start
      one_more = omega (arith, e, k.later)

  stepped-Collected :
      (rest : List Checkpoint → Cpu → Ended (List Checkpoint)) (c : Cpu) (had : List Checkpoint)
      (f : Fetched)
      → IsValid c
      → StepGood f
      → StepPrecise c f
      → ((s : List Checkpoint) (d : Cpu)
          → IsValid d
          → d.icount ≡ c.icount + 1
          → Collected config limit d.icount s (rest s d))
      → Collected config limit c.icount had (stepped h config collector rest c.pc had f)
  stepped-Collected rest c had (ok (word, insn), d) v good precise k =
      further-Collected d c.icount had _ precise
        (k (emitted h config collector d had) d good precise)
  stepped-Collected rest c had (err halt, d) v good precise k =
      stopped-Collected c.icount had (ok (Stop.halted halt)) d tt good
        (ap (λ x. x.icount) precise.0.0)
  stepped-Collected rest c had (panic, d) v good precise k = absurd good

  rounds-Collected :
      (fuel : ℕ) (had : List Checkpoint) (c : Cpu)
      → IsValid c
      → limit ≤ c.icount + fuel
      → Collected config limit c.icount had (rounds h config collector limit fuel had c)
  unfolding rounds
  rounds-Collected zero had c v enough =
      if_both (Collected config limit c.icount had) (ltb c.icount limit)
        (λ below. absurd (ground arith))
        (λ done. stopped-Collected c.icount had (ok Stop.budget) c (ground arith) v refl)
  rounds-Collected (suc fuel) had c v enough =
      if_both (Collected config limit c.icount had) (ltb c.icount limit)
        (λ below.
          stepped-Collected (rounds h config collector limit fuel) c had (step_reporting c) v
            (step_reporting-Good c v (ground (arith, below, word))) (step_reporting-Precise c v)
            (λ s d w e. rounds-Collected fuel s d w (omega (arith, e, enough))))
        (λ done. stopped-Collected c.icount had (ok Stop.budget) c (ground arith) v refl)

  -- A collected run of a valid machine, under a configuration that `validate` accepts, with a budget
  -- that is a `u64`, on fuel for the rest of its budget, ends with a halt or with
  -- its budget reached, and never panics. It leaves a valid machine, and its lines are, in order,
  -- one for each retired-instruction count at the cadence that the run passed.
  pub collect-Collected :
      (fuel : ℕ) (c : Cpu)
      → validate config ≡ ok tt
      → IsValid c
      → limit ≤ c.icount + fuel
      → Collected config limit c.icount [] (collect h config limit fuel c)
  unfolding collect run
  collect-Collected fuel c accepted v enough =
      subst
        (λ a.
          Collected config limit c.icount []
            (asserted a [] c (rounds h config collector limit fuel [] c)))
        (sym accepted) (rounds-Collected fuel [] c v enough)
