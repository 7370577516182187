-- ===== src/Harmony/Arp/Waiting.antt =====
-- The packets that wait for an address in harmony/arp.c.
use limitless_os.Prelude.{
  ℕ, ◌≡◌, refl, ap, sym, ◌∙◌, Bool, true, false, ◌&&◌, Option, none, some, List, [], ◌∷◌, ◌+◌, ◌%◌,
  ltb, leb, ◌==◌, if◌then◌else◌, arith, Bool-cases, inl, inr, ==_refl, ==_iff,
}
use limitless_os.Temporal.Quantum.{word32}
use limitless_os.Harmony.Ip.{Interface}
use limitless_os.Harmony.Arp.{
  Entry, Queued, Pending, Arp, EthFrame, arp_hash, renew, stored, store_chain, queue_frames,
  arp_process_pending, arp_add_entry, Search, fresh, exhausted, retry, missing, behind,
  find_request, age, request_timeout,
}
use limitless_os.Harmony.Arp.Calls.{
  new_request, request_found, arp_send_request, past, enqueue, queue_found, arp_queue_packet,
}

module _ (iface ip : ℕ) where
  abbrev pub asks : Pending → Bool
  asks p = p.ip_addr == ip && p.interface == iface

  -- The packets that wait for the address on the interface, the latest first.
  abbrev pub waiting_packets : List Pending → List Queued
  waiting_packets [] = []
  waiting_packets (p ∷ rest) = if asks p then p.packet_queue else waiting_packets rest

  -- No other interface waits for the address.
  abbrev pub OneInterface : List Pending → Type 0
  OneInterface [] = Unit {0}
  OneInterface (p ∷ rest) =
      ((p.ip_addr == ip) ≡ true → (p.interface == iface) ≡ true) × OneInterface rest

  -- When the address becomes known the packets that wait go out, as they stand in the queue.
  arp_process_pending-frames :
      (allocated : ℕ → Bool) (at : ℕ → Interface) (mac : List ℕ) (list : List Pending)
      → OneInterface list
      → (arp_process_pending allocated at ip mac list).1
        ≡ queue_frames allocated at iface mac (waiting_packets list)
  unfolding arp_process_pending queue_frames
  arp_process_pending-frames allocated at mac [] one = refl
  arp_process_pending-frames allocated at mac (p ∷ rest) (one, more) =
      elim (Bool-cases (p.ip_addr == ip)) [
        | inl same ↦
            let here : (p.interface == iface) ≡ true = one same in
            rw (same, here)
              (ap (λ (i : ℕ). queue_frames allocated at i mac p.packet_queue)
                ((==_iff p.interface iface).0 here))
        | inr other ↦ rw other (arp_process_pending-frames allocated at mac rest more)
      ]

  -- A list after a call, with these packets waiting_packets.
  abbrev pub Waits : List Queued → List Pending → Type 0
  Waits packets list = (waiting_packets list ≡ packets) × OneInterface list

  abbrev Enqueued : Queued → List Pending → Option (List Pending) → Type 0
  Enqueued q list none = waiting_packets list ≡ []
  Enqueued q list (some queued) = Waits (q ∷ waiting_packets list) queued

  past-Enqueued :
      (q : Queued) (p : Pending) (rest : List Pending) (r : Option (List Pending))
      → asks p ≡ false
      → ((p.ip_addr == ip) ≡ true → (p.interface == iface) ≡ true)
      → Enqueued q rest r
      → Enqueued q (p ∷ rest) (past p r)
  past-Enqueued q p rest none other one e = rw other e
  past-Enqueued q p rest (some queued) other one (same, more) = (rw other same, (one, more))

  enqueue-Enqueued :
      (q : Queued) (list : List Pending)
      → OneInterface list
      → Enqueued q list (enqueue iface ip q list)
  unfolding enqueue
  enqueue-Enqueued q [] one = refl
  enqueue-Enqueued q (p ∷ rest) (one, more) = elim (Bool-cases (asks p)) [
    | inl found ↦ rw found (ground arith, (one, more))
    | inr other ↦
        rw other (
          past-Enqueued q p rest (enqueue iface ip q rest) other one (enqueue-Enqueued q rest more))
  ]

  -- A request that is sent again keeps its packets.
  abbrev Found : List Pending → Search → Type 0
  Found list (retry l) = Waits (waiting_packets list) l
  Found list (exhausted l) = Waits (waiting_packets list) l
  Found list fresh = Unit {0}
  Found list missing = waiting_packets list ≡ []

  behind-Found :
      (p : Pending) (rest : List Pending) (s : Search)
      → asks p ≡ false
      → ((p.ip_addr == ip) ≡ true → (p.interface == iface) ≡ true)
      → Found rest s
      → Found (p ∷ rest) (behind p s)
  behind-Found p rest fresh other one f = tt
  behind-Found p rest missing other one f = rw other f
  behind-Found p rest (retry l) other one (same, more) =
      (rw other refl ∙ same ∙ sym (rw other refl), (one, more))
  behind-Found p rest (exhausted l) other one (same, more) =
      (rw other refl ∙ same ∙ sym (rw other refl), (one, more))

  find_request-Found :
      (now : ℕ) (list : List Pending)
      → OneInterface list
      → Found list (find_request now iface ip list)
  unfolding find_request
  find_request-Found now [] one = refl
  find_request-Found now (p ∷ rest) (one, more) = elim (Bool-cases (asks p)) [
    | inl found ↦ elim (Bool-cases (ltb (age now p.timestamp) request_timeout)) [
      | inl young ↦ rw (found, young) tt
      | inr old ↦ elim (Bool-cases (leb 3 ((p.retries + 1) % word32))) [
        | inl often ↦ rw (found, old, often) (ground arith, (one, more))
        | inr again ↦ rw (found, old, again) (ground arith, (one, more))
      ]
    ]
    | inr other ↦ rw other (
        behind-Found p rest (find_request now iface ip rest) other one
          (find_request-Found now rest more))
  ]

  request_found-Waits :
      (first second : Bool) (answer : EthFrame → ℕ) (at : ℕ → Interface) (now : ℕ) (s : Arp)
      (r : Search)
      → OneInterface s.pending
      → Found s.pending r
      → Waits
          (waiting_packets s.pending)
          (request_found first second answer at now iface ip s r).0.pending
  unfolding request_found
  request_found-Waits first second answer at now s fresh one f = (refl, one)
  request_found-Waits first second answer at now s (exhausted l) one f = f
  request_found-Waits first true answer at now s (retry l) one f = f
  request_found-Waits first false answer at now s (retry l) one f = f
  request_found-Waits true true answer at now s missing one f =
      (ground (arith, f), ((λ _. ==_refl iface), one))
  request_found-Waits true false answer at now s missing one f =
      (ground (arith, f), ((λ _. ==_refl iface), one))
  request_found-Waits false second answer at now s missing one f = (refl, one)

  arp_send_request-Waits :
      (first second : Bool) (answer : EthFrame → ℕ) (at : ℕ → Interface) (now : ℕ) (s : Arp)
      → OneInterface s.pending
      → Waits
          (waiting_packets s.pending)
          (arp_send_request first second answer at now iface ip s).0.pending
  unfolding arp_send_request
  arp_send_request-Waits first second answer at now s one =
      request_found-Waits first second answer at now s (find_request now iface ip s.pending) one
        (find_request-Found now s.pending one)

  -- A packet that is queued waits in front of the others.
  queue_found-Waits :
      (request copy first second : Bool) (answer : EthFrame → ℕ) (at : ℕ → Interface) (now : ℕ)
      (q : Queued) (s : Arp) (r : Option (List Pending))
      → OneInterface s.pending
      → Enqueued q s.pending r
      → (queue_found request copy first second answer at now iface ip q s r).1 ≡ 0
      → Waits
          (q ∷ waiting_packets s.pending)
          (queue_found request copy first second answer at now iface ip q s r).0.pending
  unfolding queue_found
  queue_found-Waits request false first second answer at now q s (some list) one (same, more) ok =
      absurd (omega (arith, ok))
  queue_found-Waits request true first second answer at now q s (some list) one (same, more) ok =
      let (kept, still) =
        arp_send_request-Waits first second answer at now (record s { pending = list }) more in
      (kept ∙ same, still)
  queue_found-Waits false copy first second answer at now q s none one e ok =
      absurd (omega (arith, ok))
  queue_found-Waits true false first second answer at now q s none one e ok =
      absurd (omega (arith, ok))
  queue_found-Waits true true first second answer at now q s none one e ok =
      let created : Pending = record (new_request now iface ip) { packet_queue = q ∷ [] } in
      let (kept, still) =
        arp_send_request-Waits first second answer at now
          (record s { pending = created ∷ s.pending }) ((λ _. ==_refl iface), one) in
      (kept ∙ ground (arith, e), still)

  arp_queue_packet-Waits :
      (request copy first second : Bool) (answer : EthFrame → ℕ) (at : ℕ → Interface)
      (now ethertype : ℕ) (packet : List ℕ) (s : Arp)
      → OneInterface s.pending
      → let queued =
          arp_queue_packet request copy first second answer at now iface ip ethertype packet s in
        queued.1 ≡ 0
        → Waits
            (record { ethertype = ethertype; packet = packet } ∷ waiting_packets s.pending)
            queued.0.pending
  unfolding arp_queue_packet
  arp_queue_packet-Waits request copy first second answer at now ethertype packet s one ok =
      let q : Queued = record { ethertype = ethertype; packet = packet } in
      queue_found-Waits request copy first second answer at now q s (enqueue iface ip q s.pending)
        one (enqueue-Enqueued q s.pending one) ok

  arp_add_entry-frames :
      (allocated : Bool) (frame_memory : ℕ → Bool) (at : ℕ → Interface) (now : ℕ) (mac : List ℕ)
      (s : Arp)
      → OneInterface s.pending
      → (arp_add_entry allocated frame_memory at now ip mac s).1 ≡ 0
      → (arp_add_entry allocated frame_memory at now ip mac s).2
        ≡ queue_frames frame_memory at iface mac (waiting_packets s.pending)
  unfolding arp_add_entry store_chain
  arp_add_entry-frames allocated frame_memory at now mac s one ok =
      through
        (stored allocated now ip mac (s.cache (arp_hash ip))
          (renew now ip mac (s.cache (arp_hash ip))))
        ok
    where
      through :
          (r : Option (List Entry))
          → (store_chain frame_memory at ip mac s r).1 ≡ 0
          → (store_chain frame_memory at ip mac s r).2
            ≡ queue_frames frame_memory at iface mac (waiting_packets s.pending)
      through none failed = absurd (omega (arith, failed))
      through (some chain) fine = arp_process_pending-frames frame_memory at mac s.pending one

  -- Two packets that are queued for an address, for which no other interface waits, are sent with those
  -- that waited before as soon as the address is added, but the later one first.
  pub arp_queue_reverses :
      (request copy first second allocated : Bool) (frame_memory : ℕ → Bool) (answer : EthFrame → ℕ)
      (at : ℕ → Interface) (now ethertype : ℕ) (packet packet' mac : List ℕ) (s : Arp)
      → OneInterface s.pending
      → let queue = arp_queue_packet request copy first second answer at now iface ip ethertype in
        let queued = queue packet s in
        let both = queue packet' queued.0 in
        let added = arp_add_entry allocated frame_memory at now ip mac both.0 in
        queued.1 ≡ 0
        → both.1 ≡ 0
        → added.1 ≡ 0
        → added.2
          ≡ queue_frames frame_memory at iface mac (
              record { ethertype = ethertype; packet = packet' }
              ∷ record { ethertype = ethertype; packet = packet }
              ∷ waiting_packets s.pending)
  arp_queue_reverses request copy first second allocated frame_memory answer at now ethertype packet
        packet' mac s one ok ok' added =
      let queue = arp_queue_packet request copy first second answer at now iface ip ethertype in
      let t = (queue packet s).0 in
      let (w, one') =
        arp_queue_packet-Waits request copy first second answer at now ethertype packet s one ok in
      let (w', one'') =
        arp_queue_packet-Waits request copy first second answer at now ethertype packet' t one'
          ok' in
      arp_add_entry-frames allocated frame_memory at now mac (queue packet' t).0 one'' added
      ∙ ap (queue_frames frame_memory at iface mac)
          (w' ∙ ap (λ (l : List Queued). record { ethertype = ethertype; packet = packet' } ∷ l) w)
