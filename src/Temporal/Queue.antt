-- ===== src/Temporal/Queue.antt =====
-- The doubly linked ready queues of continuum/temporal_scheduler.c, `queue_*`. The lock that each
-- function holds throughout is left out. Each write goes to the store before the next read.
pub mod Links
pub mod Refine
pub mod Remove
pub mod Frame
use limitless_os.Prelude.{ℕ, ◌+◌, ◌-◌, ◌%◌, Option, none, some, update}
use limitless_os.Temporal.Quantum.{Quantum, Quanta, SchedulerQueue, word32}

unfoldable pub queue_init : ℕ → SchedulerQueue
queue_init priority = record { head = none; tail = none; count = 0; priority = priority }

abbrev pub set_next : Quanta → ℕ → Option ℕ → Quanta
set_next quanta p n = update quanta p (record (quanta p) { next_ready = n })

abbrev pub set_prev : Quanta → ℕ → Option ℕ → Quanta
set_prev quanta p n = update quanta p (record (quanta p) { prev_ready = n })

abbrev pub unlink : Quanta → ℕ → Quanta
unlink quanta p = update quanta p (record (quanta p) { next_ready = none; prev_ready = none })

-- `queue->tail->next_ready = quantum`, or `queue->head = quantum` where there is no tail.
abbrev pub link_after : Option ℕ → ℕ → Quanta → SchedulerQueue → Quanta × SchedulerQueue
link_after (some last) quantum quanta queue = (set_next quanta last (some quantum), queue)
link_after none quantum quanta queue = (quanta, record queue { head = some quantum })

unfoldable pub queue_enqueue : Quanta → SchedulerQueue → ℕ → Quanta × SchedulerQueue
queue_enqueue quanta queue quantum =
    let quanta' =
      update quanta quantum
        (record (quanta quantum) { next_ready = none; prev_ready = queue.tail }) in
    let (quanta'', queue') = link_after queue.tail quantum quanta' queue in
    (quanta'', record queue' { tail = some quantum; count = (queue'.count + 1) % word32 })

-- `queue->head = quantum->next_ready`, with what follows for the new head.
abbrev pub advance : Option ℕ → Quanta → SchedulerQueue → Quanta × SchedulerQueue
advance (some head) quanta queue = (set_prev quanta head none, record queue { head = some head })
advance none quanta queue = (quanta, record queue { head = none; tail = none })

abbrev pub dequeue_head : Option ℕ → Quanta → SchedulerQueue → Option ℕ × Quanta × SchedulerQueue
dequeue_head none quanta queue = (none, quanta, queue)
dequeue_head (some quantum) quanta queue =
    let (quanta', queue') = advance (quanta quantum).next_ready quanta queue in
    (
      some quantum,
      unlink quanta' quantum,
      record queue' { count = (queue'.count + word32 - 1) % word32 },
    )

unfoldable pub queue_dequeue : Quanta → SchedulerQueue → Option ℕ × Quanta × SchedulerQueue
queue_dequeue quanta queue = dequeue_head queue.head quanta queue

-- The two conditionals of `queue_remove`.
abbrev pub bypass_next : Option ℕ → Option ℕ → Quanta → SchedulerQueue → Quanta × SchedulerQueue
bypass_next (some prev) next quanta queue = (set_next quanta prev next, queue)
bypass_next none next quanta queue = (quanta, record queue { head = next })

abbrev pub bypass_prev : Option ℕ → Option ℕ → Quanta → SchedulerQueue → Quanta × SchedulerQueue
bypass_prev (some next) prev quanta queue = (set_prev quanta next prev, queue)
bypass_prev none prev quanta queue = (quanta, record queue { tail = prev })

unfoldable pub queue_remove : Quanta → SchedulerQueue → ℕ → Quanta × SchedulerQueue
queue_remove quanta queue quantum =
    let (quanta', queue') =
      bypass_next (quanta quantum).prev_ready (quanta quantum).next_ready quanta queue in
    let (quanta'', queue'') =
      bypass_prev (quanta' quantum).next_ready (quanta' quantum).prev_ready quanta' queue' in
    (unlink quanta'' quantum, record queue'' { count = (queue''.count + word32 - 1) % word32 })
