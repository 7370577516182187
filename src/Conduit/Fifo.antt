-- ===== src/Conduit/Fifo.antt =====
-- Calls that may not block, on one open conduit, against a queue of byte strings.
use limitless_os.Prelude.{
  ℕ, ◌+◌, ◌/◌, ◌^◌, ◌<◌, ◌≡◌, refl, sym, ap, subst, ◌∙◌, Bool, true, some, List, [], ◌∷◌, ◌++◌,
  length, ltb, if◌then◌else◌, ◌==◌, map, length-append, arith,
}
use limitless_os.Temporal.Quantum.{Scheduler}
use limitless_os.Temporal.Operations.{temporal_unblock-qid, temporal_unblock-tsc}
use limitless_os.Conduit.Message.{header_size, length-header_bytes, header_bytes}
use limitless_os.Conduit.WaitQueue.{WaitQueue, waitqueue_remove, remove_first}
use limitless_os.Conduit.Endpoint.{
  Endpoint, Result, done, failed, einval, emsgsize, eagain, is_nonblock, deliver, conduit_send,
}
use limitless_os.Conduit.Reader.{collect, conduit_receive}
use limitless_os.Conduit.Stream.{Frame, frames, frame_bytes, Carries-used, WellFormed}
use limitless_os.Conduit.Delivery.{IsStream}

-- A call with its arguments. Its flags hold CONDUIT_FLAG_NONBLOCK.
pub data Call : Type 0 where
  send : List ℕ → ℕ → Call
  receive : ℕ → Call

pub data Reply : Type 0 where
  sent : Result ℕ → Reply
  received : Result (List ℕ) → Reply

-- The bytes that waiting messages take up, each with its header.
abbrev pub occupied : List (List ℕ) → ℕ
occupied [] = 0
occupied (m ∷ ms) = header_size + length m + occupied ms

-- The specification: a queue of byte strings that may occupy at most `limit` bytes, none of them
-- longer than a quarter of that.
unfoldable pub spec_send : ℕ → List (List ℕ) → List ℕ → Result ℕ × List (List ℕ)
spec_send limit queue bytes =
    if length bytes == 0
    then (failed einval, queue)
    else if ltb (limit / 4) (length bytes)
    then (failed emsgsize, queue)
    else if ltb limit (occupied queue + (header_size + length bytes))
    then (failed eagain, queue)
    else (done (length bytes), queue ++ bytes ∷ [])

abbrev pub spec_take : List (List ℕ) → ℕ → Result (List ℕ) × List (List ℕ)
spec_take [] max_size = (failed eagain, [])
spec_take (m ∷ queue) max_size =
    if ltb max_size (length m) then (failed emsgsize, m ∷ queue) else (done m, queue)

unfoldable pub spec_receive : List (List ℕ) → ℕ → Result (List ℕ) × List (List ℕ)
spec_receive queue max_size =
    if max_size == 0 then (failed einval, queue) else spec_take queue max_size

unfoldable pub spec_run : ℕ → List (List ℕ) → List Call → List Reply
spec_run limit queue [] = []
spec_run limit queue (send bytes flags ∷ calls) =
    let (r, queue') = spec_send limit queue bytes in sent r ∷ spec_run limit queue' calls
spec_run limit queue (receive max_size ∷ calls) =
    let (r, queue') = spec_receive queue max_size in received r ∷ spec_run limit queue' calls

-- The replies of the code. The lowest bit of the flags is CONDUIT_FLAG_NONBLOCK.
module _ (meanwhile : Endpoint → Endpoint) (node : Bool) (self : ℕ) where
  unfoldable pub run_calls : Endpoint → List Call → List Reply
  run_calls e [] = []
  run_calls e (send bytes flags ∷ calls) =
      let (r, e') = conduit_send meanwhile node self e (some bytes) (length bytes) flags in
      sent r ∷ run_calls e' calls
  run_calls e (receive max_size ∷ calls) =
      let (r, e') = conduit_receive meanwhile node self e true max_size 1 in
      received r ∷ run_calls e' calls

-- Every call may not block, and its flags are a 32-bit number.
abbrev pub NonBlocking : List Call → Type 0
NonBlocking [] = Unit {0}
NonBlocking (send bytes flags ∷ calls) =
    (is_nonblock flags ≡ true) × (flags < 2 ^ 32) × NonBlocking calls
NonBlocking (receive max_size ∷ calls) = NonBlocking calls

-- Time stamps and quantum numbers are 64-bit numbers.
pub record SchedFits (s : Scheduler) : Type 0 where
  pub times : (i : ℕ) → s.tsc i < 2 ^ 64
  pub qids : (q : ℕ) → (s.quanta q).qid < 2 ^ 64

remove_first-SchedFits :
    (waiting : List ℕ) (wq : WaitQueue) (s : Scheduler)
    → SchedFits s
    → SchedFits (remove_first waiting wq s).2
remove_first-SchedFits [] wq s f = f
remove_first-SchedFits (x ∷ rest) wq s f = record {
  times = λ i. subst (λ (t : ℕ → ℕ). t i < 2 ^ 64) (sym (temporal_unblock-tsc s x)) (f.times i);
  qids = λ q. subst (λ (n : ℕ). n < 2 ^ 64) (sym (temporal_unblock-qid s x q)) (f.qids q);
}

waitqueue_remove-SchedFits :
    (wq : WaitQueue) (s : Scheduler) → SchedFits s → SchedFits (waitqueue_remove wq s).2
unfolding waitqueue_remove
waitqueue_remove-SchedFits wq s f = remove_first-SchedFits wq.waiting wq s f

pub deliver-SchedFits :
    (e : Endpoint) (self : ℕ) (bytes : List ℕ) (size flags : ℕ)
    → SchedFits e.sched
    → SchedFits (deliver e self bytes size flags).sched
unfolding deliver
deliver-SchedFits e self bytes size flags f =
    waitqueue_remove-SchedFits e.conduit.readers _ (record { times = f.times; qids = f.qids })

pub collect-SchedFits : (e : Endpoint) → SchedFits e.sched → SchedFits (collect e).1.sched
unfolding collect
collect-SchedFits e f = waitqueue_remove-SchedFits e.conduit.writers e.sched f

-- Neither changes the size of the buffer.
pub deliver-buffer_size :
    (e : Endpoint) (self : ℕ) (bytes : List ℕ) (size flags : ℕ)
    → (deliver e self bytes size flags).conduit.buffer_size ≡ e.conduit.buffer_size
unfolding deliver
deliver-buffer_size e self bytes size flags = refl

pub collect-buffer_size : (e : Endpoint) → (collect e).1.conduit.buffer_size ≡ e.conduit.buffer_size
unfolding collect
collect-buffer_size e = refl

abbrev pub payload : Frame → List ℕ
payload f = f.1

-- An open conduit that holds the messages `queue`, in a kernel whose numbers fit.
pub record Represents (e : Endpoint) (queue : List (List ℕ)) : Type 0 where
  pub listed : List Frame
  pub stream : IsStream e.conduit listed
  pub payloads : map (λ (f : Frame). f.1) listed ≡ queue
  pub fitting : SchedFits e.sched

length-frames : (fs : List Frame) → WellFormed fs → length (frames fs) ≡ occupied (map payload fs)
length-frames [] w = refl
length-frames (f ∷ fs) w = omega (
  arith,
  length-append (frame_bytes f) (frames fs),
  length-append (header_bytes f.0) f.1,
  length-header_bytes f.0,
  length-frames fs w.2,
)

pub used-occupied :
    (e : Endpoint) (queue : List (List ℕ))
    → (r : Represents e queue) → e.conduit.messages.used ≡ occupied queue
used-occupied e queue r =
    Carries-used e.conduit.messages r.listed r.stream.carries
    ∙ length-frames r.listed r.stream.carries.formed
    ∙ ap occupied r.payloads
