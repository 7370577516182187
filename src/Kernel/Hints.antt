-- ===== src/Kernel/Hints.antt =====
-- `temporal_update_ai_hints` of continuum/temporal_scheduler.c. The weight of a hint is a floating point
-- number that is stored and read nowhere; it is left out, as is the prediction of waiting, which is
-- not read. `predicted_cache_affinity` is the bits of a number of 32 bits with a sign; the shift takes
-- the amount modulo 64, as the processor does.
use limitless_os.Prelude.{
  ℕ, ◌%◌, ◌^◌, ◌<◌, ◌≡◌, refl, ◌∙◌, Option, none, some, List, [], ◌∷◌, ltb, if◌then◌else◌, arith,
}
use limitless_os.Temporal.Quantum.{Quantum, CpuAffinity, priority_high, priority_low, priority_max}
use limitless_os.Temporal.Core.{with_quantum}
use limitless_os.Temporal.Ready.{Lists}
use limitless_os.Temporal.Enqueue.{Keeps, Ready-update_same}
use limitless_os.Kernel.{Kernel, continuum_get_quantum}

-- `nexus_hint_t`
pub record NexusHint : Type 0 where
  pub qid : ℕ
  pub predicted_cpu_burst : ℕ
  pub predicted_cache_affinity : ℕ

abbrev pub hinted_priority : ℕ → ℕ → ℕ
hinted_priority burst priority =
    if ltb 0 burst
    then if ltb burst 1000
      then priority_high
      else if ltb 10000 burst
      then priority_low
      else priority
    else priority

abbrev pub hinted : NexusHint → Quantum → Quantum
hinted hint q =
    let q' = record q { priority = hinted_priority hint.predicted_cpu_burst q.priority } in
    if ltb hint.predicted_cache_affinity (2 ^ 31)
    then record q' {
      cpu_mask = 2 ^ (hint.predicted_cache_affinity % 64);
      cpu_affinity = CpuAffinity.single;
    }
    else q'

-- The body of the loop.
abbrev pub apply_hint : Kernel → NexusHint → Option ℕ → Kernel
apply_hint k hint none = k
apply_hint k hint (some x) =
    let s = k.sched in record k { sched = with_quantum s x (hinted hint (s.quanta x)) }

unfoldable pub hints_loop : Kernel → List NexusHint → Kernel
hints_loop k [] = k
hints_loop k (hint ∷ hints) =
    hints_loop (apply_hint k hint (continuum_get_quantum k hint.qid)) hints

-- The pointer may be null.
unfoldable pub temporal_update_ai_hints : Kernel → Option (List NexusHint) → Kernel
unfolding hints_loop
temporal_update_ai_hints k none = k
temporal_update_ai_hints k (some hints) = hints_loop k hints

-- What hints leave of a kernel: its queues, its registry, and the range of the priorities.
pub record Hinted (k k' : Kernel) : Type 0 where
  pub keeps : (lists : Lists) → Keeps k.sched lists → Keeps k'.sched lists
  pub registry : (k'.quanta ≡ k.quanta) × (k'.count ≡ k.count)
  pub numbers : (y : ℕ) → (k'.sched.quanta y).qid ≡ (k.sched.quanta y).qid
  pub range :
      (y : ℕ)
      → (k.sched.quanta y).priority < priority_max
      → (k'.sched.quanta y).priority < priority_max

apply_hint-Hinted : (k : Kernel) (hint : NexusHint) (o : Option ℕ) → Hinted k (apply_hint k hint o)
apply_hint-Hinted k hint none = record {
  keeps = λ lists v. v;
  registry = (refl, refl);
  numbers = λ y. refl;
  range = λ y h. h;
}
apply_hint-Hinted k hint (some x) =
    let s = k.sched in
    record {
      keeps = λ lists v.
          Ready-update_same s.quanta s.ready_queues s.idle_quantum lists x
            (hinted hint (s.quanta x)) (ground arith) (ground arith) (ground arith) v;
      registry = (refl, refl);
      numbers = λ y. ground arith;
      range = λ y h. ground arith;
    }

Hinted-trans : (a b c : Kernel) → Hinted a b → Hinted b c → Hinted a c
Hinted-trans a b c p q = record {
  keeps = λ lists v. q.keeps lists (p.keeps lists v);
  registry = (q.registry.0 ∙ p.registry.0, q.registry.1 ∙ p.registry.1);
  numbers = λ y. q.numbers y ∙ p.numbers y;
  range = λ y h. q.range y (p.range y h);
}

hints_loop-Hinted : (k : Kernel) (hints : List NexusHint) → Hinted k (hints_loop k hints)
unfolding hints_loop
hints_loop-Hinted k [] =
    apply_hint-Hinted k (record { qid = 0; predicted_cpu_burst = 0; predicted_cache_affinity = 0 })
      none
hints_loop-Hinted k (hint ∷ hints) =
    let o = continuum_get_quantum k hint.qid in
    Hinted-trans k (apply_hint k hint o) _ (apply_hint-Hinted k hint o)
      (hints_loop-Hinted (apply_hint k hint o) hints)

-- Hints change neither the ready queues, which keep a quantum under its old priority, nor the registry
-- nor a number, and every priority that was in range stays in range.
pub temporal_update_ai_hints_lem :
    (k : Kernel) (hints : Option (List NexusHint)) → Hinted k (temporal_update_ai_hints k hints)
unfolding temporal_update_ai_hints
temporal_update_ai_hints_lem k none = hints_loop-Hinted k []
temporal_update_ai_hints_lem k (some hints) = hints_loop-Hinted k hints
