-- ===== src/Conduit/WaitQueue.antt =====
-- The wait queues of continuum/conduit_ipc.c, `waitqueue_*`. The nodes of a queue are reached
-- through it alone, so they are the list of the quanta that they name, the oldest first.
use limitless_os.Prelude.{
  ℕ, zero, suc, ◌+◌, ◌-◌, ◌%◌, Bool, true, false, Option, none, some, List, [], ◌∷◌, ◌++◌, ltb,
  if◌then◌else◌, length, ◌≡◌, ◌<◌, refl, ap, ◌∙◌, arith,
}
use limitless_os.Temporal.Quantum.{Scheduler, BlockReason, word32}
use limitless_os.Temporal.Core.{temporal_block, temporal_unblock}

-- `wait_queue_t`
pub record WaitQueue : Type 0 where
  pub waiting : List ℕ
  pub count : ℕ

unfoldable pub waitqueue_init : WaitQueue
waitqueue_init = record { waiting = []; count = 0 }

-- The first argument says whether `flux_allocate` returns a node. `none` is the null pointer that
-- `temporal_block` dereferences where there is no current quantum either.
unfoldable pub waitqueue_add : Bool → WaitQueue → ℕ → Scheduler → Option (WaitQueue × Scheduler)
waitqueue_add false wq quantum s = some (wq, s)
waitqueue_add true wq quantum s = elim (temporal_block s (some quantum) BlockReason.conduit) [
  | none ↦ none
  | some s' ↦
      some (record { waiting = wq.waiting ++ quantum ∷ []; count = (wq.count + 1) % word32 }, s')
]

abbrev pub remove_first : List ℕ → WaitQueue → Scheduler → Option ℕ × WaitQueue × Scheduler
remove_first [] wq s = (none, wq, s)
remove_first (quantum ∷ rest) wq s = (
  some quantum,
  record { waiting = rest; count = (wq.count + word32 - 1) % word32 },
  temporal_unblock s (some quantum),
)

-- Returns the quantum that it wakes.
unfoldable pub waitqueue_remove : WaitQueue → Scheduler → Option ℕ × WaitQueue × Scheduler
waitqueue_remove wq s = remove_first wq.waiting wq s

-- `while (wq->count > 0) waitqueue_remove(wq);` with fuel; `none` means that it ran out.
unfoldable pub wake_loop : ℕ → WaitQueue → Scheduler → Option (WaitQueue × Scheduler)
wake_loop zero wq s = none
wake_loop (suc fuel) wq s =
    let (woken, wq', s') = waitqueue_remove wq s in
    let rest = wake_loop fuel wq' s' in if ltb 0 wq.count then rest else some (wq, s)

-- One round for each quantum that the queue counts, and the last test.
unfoldable pub waitqueue_wake_all : WaitQueue → Scheduler → Option (WaitQueue × Scheduler)
unfolding wake_loop
waitqueue_wake_all wq s = wake_loop (suc wq.count) wq s

-- The quanta unblocked one after the other.
abbrev pub unblocked : List ℕ → Scheduler → Scheduler
unblocked [] s = s
unblocked (quantum ∷ rest) s = unblocked rest (temporal_unblock s (some quantum))

wake_loop_lem :
    (waiting : List ℕ) (s : Scheduler)
    → length waiting < word32
    → wake_loop (suc (length waiting)) (record { waiting = waiting; count = length waiting }) s
      ≡ some (waitqueue_init, unblocked waiting s)
unfolding wake_loop waitqueue_remove waitqueue_init
wake_loop_lem [] s h = refl
wake_loop_lem (quantum ∷ rest) s h =
    ap
      (λ (b : Bool).
        if b then after (suc (length rest) + word32 - 1) else some (counted (suc (length rest)), s))
      {x = ltb 0 (suc (length rest))} {y = true} (ground arith)
    ∙ ap
        (λ (n : ℕ).
          wake_loop (suc (length rest)) (record { waiting = rest; count = n })
            (temporal_unblock s (some quantum)))
        {x = (suc (length rest) + word32 - 1) % word32} {y = length rest} (omega arith)
    ∙ wake_loop_lem rest (temporal_unblock s (some quantum)) (omega arith)
  where
    counted : ℕ → WaitQueue
    counted n = record { waiting = quantum ∷ rest; count = n }

    after : ℕ → Option (WaitQueue × Scheduler)
    after n =
        wake_loop (suc (length rest)) (record { waiting = rest; count = n % word32 })
          (temporal_unblock s (some quantum))

-- A wait queue whose count is right wakes every quantum in it, the oldest first, and is empty then:
-- the loop ends.
pub waitqueue_wake_all_lem :
    (wq : WaitQueue) (s : Scheduler)
    → wq.count ≡ length wq.waiting
    → length wq.waiting < word32
    → waitqueue_wake_all wq s ≡ some (waitqueue_init, unblocked wq.waiting s)
unfolding waitqueue_wake_all
waitqueue_wake_all_lem wq s e h =
    ap (λ (n : ℕ). wake_loop (suc n) (record { waiting = wq.waiting; count = n }) s) e
    ∙ wake_loop_lem wq.waiting s h
