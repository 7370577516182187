-- ===== src/Conduit/Exchange.antt =====
-- The calls of conduit_ipc.c that may not block, run against the queue of Conduit/Fifo.antt.
use limitless_os.Prelude.{
  map-append, ℕ, zero, suc, ◌+◌, ◌/◌, ◌^◌, ◌<◌, ◌≤◌, ◌≡◌, inr, refl, sym, ap, ap₂, subst, subst₂,
  ◌∙◌, Bool, true, some, List, [], ◌∷◌, ◌++◌, length, map, take_all, arith, dec_lt,
}
use limitless_os.Conduit.Message.{header_size}
use limitless_os.Conduit.Endpoint.{
  Endpoint, Result, done, failed, einval, emsgsize, eagain, is_nonblock, conduit_send,
}
use limitless_os.Conduit.Reader.{conduit_receive}
use limitless_os.Conduit.Stream.{Frame}
use limitless_os.Conduit.Delivery.{
  conduit_receive_refuses, IsStream, sent_frame, conduit_send_full, conduit_send_refuses,
  conduit_send_delivers, conduit_receive_collects, deliver-IsStream, collect-IsStream,
  conduit_receive_long, conduit_receive_empty,
}
use limitless_os.Conduit.Fifo.{
  Call, Reply, send, receive, sent, received, occupied, spec_send, spec_take, spec_receive,
  spec_run, run_calls, NonBlocking, SchedFits, deliver-SchedFits, collect-SchedFits,
  deliver-buffer_size, collect-buffer_size, payload, Represents, used-occupied,
}

abbrev Matches {ℓ} : {A : Type ℓ} → ℕ → A × Endpoint → A × List (List ℕ) → Type ℓ
Matches limit (r, e) (r', queue) = (r ≡ r') × Represents e queue × (e.conduit.buffer_size ≡ limit)

spec_receive_pos :
    (queue : List (List ℕ)) (max_size : ℕ)
    → 0 < max_size
    → spec_receive queue max_size ≡ spec_take queue max_size
unfolding spec_receive
spec_receive_pos queue max_size pos = ground arith

-- The checks of `conduit_receive` on a conduit whose ring holds `fs`.
module _ (meanwhile : Endpoint → Endpoint) (node : Bool) (self : ℕ) where
  receive-Matches_from :
      (e : Endpoint) (queue : List (List ℕ)) (max_size : ℕ) (fs : List Frame)
      → IsStream e.conduit fs
      → map payload fs ≡ queue
      → SchedFits e.sched
      → 0 < max_size
      → Matches e.conduit.buffer_size
          (conduit_receive meanwhile node self e true max_size 1)
          (spec_take queue max_size)
  receive-Matches_from e queue max_size [] v same fitting pos =
      subst₂ (Matches e.conduit.buffer_size)
        (sym (conduit_receive_empty meanwhile node self e max_size 1 v pos refl))
        (ap (λ (q : List (List ℕ)). spec_take q max_size) same)
        (refl, record { listed = []; stream = v; payloads = refl; fitting = fitting }, refl)
  receive-Matches_from e queue max_size ((header, bytes) ∷ fs) v same fitting pos =
      subst
        (λ (q : List (List ℕ)).
          Matches e.conduit.buffer_size (conduit_receive meanwhile node self e true max_size 1)
            (spec_take q max_size))
        same
        (elim (dec_lt max_size (length bytes)) [
          | yes long ↦
              subst₂ (Matches e.conduit.buffer_size)
                (sym (
                  conduit_receive_long meanwhile node self e header bytes fs max_size 1 v pos long))
                (sym (take_long long))
                (
                  refl,
                  record {
                    listed = (header, bytes) ∷ fs;
                    stream = v;
                    payloads = refl;
                    fitting = fitting;
                  },
                  refl,
                )
          | no short ↦
              subst₂ (Matches e.conduit.buffer_size)
                (sym (
                  conduit_receive_collects meanwhile node self e header bytes fs max_size 1 v pos
                    (omega (arith, short))))
                (sym (take_short short))
                (
                  ap done (collect-IsStream e header bytes fs v).0,
                  record {
                    listed = fs;
                    stream = (collect-IsStream e header bytes fs v).1;
                    payloads = refl;
                    fitting = collect-SchedFits e fitting;
                  },
                  collect-buffer_size e,
                )
        ])
    where
      take_long :
          max_size < length bytes
          → spec_take (bytes ∷ map payload fs) max_size ≡ (failed emsgsize, bytes ∷ map payload fs)
      take_long long = ground (arith, long)

      take_short :
          ¬ (max_size < length bytes)
          → spec_take (bytes ∷ map payload fs) max_size ≡ (done bytes, map payload fs)
      take_short short = ground (arith, short)

module _ (meanwhile : Endpoint → Endpoint) (node : Bool) (self : ℕ) where
  pub send-Matches :
      (e : Endpoint) (queue : List (List ℕ)) (bytes : List ℕ) (flags : ℕ)
      → Represents e queue
      → is_nonblock flags ≡ true
      → flags < 2 ^ 32
      → Matches e.conduit.buffer_size
          (conduit_send meanwhile node self e (some bytes) (length bytes) flags)
          (spec_send e.conduit.buffer_size queue bytes)
  unfolding spec_send
  send-Matches e queue bytes flags r nonblock fits = elim (dec_lt 0 (length bytes)) [
    | no empty ↦
        refused (failed einval)
          ((conduit_send_refuses meanwhile node self e (some bytes) (length bytes) flags).0
            (inr (omega arith)))
          (ground (arith, empty))
    | yes pos ↦ elim (dec_lt (e.conduit.buffer_size / 4) (length bytes)) [
      | yes long ↦
          refused (failed emsgsize)
            ((conduit_send_refuses meanwhile node self e (some bytes) (length bytes) flags).2
              (λ h. cc) (omega arith) r.stream.is_open (omega (arith, r.stream.quarter)))
            (ground (arith, pos, long))
      | no short ↦
          elim (dec_lt e.conduit.buffer_size (occupied queue + (header_size + length bytes))) [
            | yes full ↦
                refused (failed eagain)
                  (conduit_send_full meanwhile node self e r.listed bytes (length bytes) flags
                    r.stream pos (omega (arith, r.stream.quarter)) (omega (arith, used)) nonblock)
                  (ground (arith, pos, short, full))
            | no room ↦
                accepted pos (omega (arith, r.stream.quarter)) (omega (arith, used))
                  (ground (arith, pos, short, room))
          ]
    ]
  ]
    where
      Goal : Result ℕ × Endpoint → Result ℕ × List (List ℕ) → Type 0
      Goal = Matches e.conduit.buffer_size

      used : e.conduit.messages.used ≡ occupied queue
      used = used-occupied e queue r

      limits : e.conduit.buffer_size < 2 ^ 64
      limits = omega (arith, r.stream.carries.valid.fits, r.stream.same_size)

      accepted :
          0 < length bytes
          → length bytes ≤ e.conduit.max_message_size
          → e.conduit.messages.used + (header_size + length bytes) ≤ e.conduit.buffer_size
          → spec_send e.conduit.buffer_size queue bytes ≡ (done (length bytes), queue ++ bytes ∷ [])
          → Goal
              (conduit_send meanwhile node self e (some bytes) (length bytes) flags)
              (spec_send e.conduit.buffer_size queue bytes)
      accepted pos short room b =
          subst₂ Goal
            (sym (
              conduit_send_delivers meanwhile node self e r.listed bytes (length bytes) flags
                r.stream pos short room))
            (sym b)
            (
              refl,
              record {
                listed = r.listed ++ sent_frame e self bytes (length bytes) flags ∷ [];
                stream =
                    deliver-IsStream e r.listed self bytes (length bytes) flags r.stream
                      (record {
                        sender_fits = r.fitting.qids self;
                        size_fits = omega (arith, limits, r.stream.quarter);
                        timestamp_fits = r.fitting.times e.sched.reads;
                        flags_fits = fits;
                      })
                      (omega arith) room;
                payloads =
                    map-append payload r.listed (sent_frame e self bytes (length bytes) flags ∷ [])
                    ∙ ap₂ (λ (a b : List (List ℕ)). a ++ b) r.payloads
                        (ap (λ (l : List ℕ). l ∷ []) (take_all (length bytes) bytes (omega arith)));
                fitting = deliver-SchedFits e self bytes (length bytes) flags r.fitting;
              },
              deliver-buffer_size e self bytes (length bytes) flags,
            )

      refused :
          (x : Result ℕ)
          → conduit_send meanwhile node self e (some bytes) (length bytes) flags ≡ (x, e)
          → spec_send e.conduit.buffer_size queue bytes ≡ (x, queue)
          → Goal
              (conduit_send meanwhile node self e (some bytes) (length bytes) flags)
              (spec_send e.conduit.buffer_size queue bytes)
      refused x a b = subst₂ Goal (sym a) (sym b) (refl, r, refl)

  pub receive-Matches :
      (e : Endpoint) (queue : List (List ℕ)) (max_size : ℕ)
      → Represents e queue
      → Matches e.conduit.buffer_size
          (conduit_receive meanwhile node self e true max_size 1)
          (spec_receive queue max_size)
  unfolding spec_receive
  receive-Matches e queue zero r =
      subst
        (λ (x : Result (List ℕ) × Endpoint). Matches e.conduit.buffer_size x (failed einval, queue))
        (sym (conduit_receive_refuses meanwhile node self e true zero 1 (inr refl))) (refl, r, refl)
  receive-Matches e queue (suc n) r =
      subst (Matches e.conduit.buffer_size (conduit_receive meanwhile node self e true (suc n) 1))
        (sym (spec_receive_pos queue (suc n) (omega arith)))
        (receive-Matches_from meanwhile node self e queue (suc n) r.listed r.stream r.payloads
          r.fitting (omega arith))

  -- Where `e` is an open conduit that holds the messages `queue`, in a kernel whose numbers fit
  -- their types, a run of calls that may not block gets the replies that the specification gives.
  pub run_refines :
      (e : Endpoint) (queue : List (List ℕ)) (calls : List Call)
      → Represents e queue
      → NonBlocking calls
      → run_calls meanwhile node self e calls ≡ spec_run e.conduit.buffer_size queue calls
  unfolding run_calls spec_run
  run_refines e queue [] r h = refl
  run_refines e queue (send bytes flags ∷ calls) r h =
      let (same, r', size) = send-Matches e queue bytes flags r h.0 h.1 in
      let (reply, e') = conduit_send meanwhile node self e (some bytes) (length bytes) flags in
      let queue' = (spec_send e.conduit.buffer_size queue bytes).1 in
      ap₂ (λ (x : Result ℕ) (l : List Reply). sent x ∷ l) same
        (run_refines e' queue' calls r' h.2 ∙ ap (λ (n : ℕ). spec_run n queue' calls) size)
  run_refines e queue (receive max_size ∷ calls) r h =
      let (same, r', size) = receive-Matches e queue max_size r in
      let (reply, e') = conduit_receive meanwhile node self e true max_size 1 in
      let queue' = (spec_receive queue max_size).1 in
      ap₂ (λ (x : Result (List ℕ)) (l : List Reply). received x ∷ l) same
        (run_refines e' queue' calls r' h ∙ ap (λ (n : ℕ). spec_run n queue' calls) size)
