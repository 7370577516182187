-- ===== src/Harmony/Tcp/Sending.antt =====
-- `tcp_send` of harmony/tcp.c cuts the data into segments.
use limitless_os.Prelude.{
  ℕ, zero, suc, ◌+◌, ◌-◌, ◌%◌, ◌^◌, ◌≤◌, ◌<◌, ◌≡◌, refl, ap, sym, subst, ◌∙◌, Bool, true, List, [],
  ◌∷◌, ◌++◌, map, append-nil, append_assoc, ltb, if◌then◌else◌, arith, Bool-cases, inl, inr,
  ℕ_discrete, ==_ne,
}
use limitless_os.Temporal.Quantum.{word32}
use limitless_os.Harmony.Tcp.{TcpState, established, Segment, Connection, segment, Tcp, new_segment}
use limitless_os.Harmony.Tcp.Calls.{send_loop, send_in, tcp_send}
use limitless_os.Harmony.Tcp.Segments.{send_queued}

-- The bytes that segments are for.
abbrev pub lengths : List Segment → ℕ
lengths [] = 0
lengths (s ∷ rest) = s.data_len + lengths rest

-- Segments that are not empty and no longer than the limit, numbered from the first byte on.
abbrev pub Consecutive : ℕ → ℕ → List Segment → Type 0
Consecutive mss seq [] = Unit {0}
Consecutive mss seq (s ∷ rest) =
    (s.seq_num ≡ seq)
    × (0 < s.data_len)
    × (s.data_len ≤ mss)
    × Consecutive mss ((seq + s.data_len) % 2 ^ 32) rest

-- What was sent of so many bytes, and how many are left.
pub record Sends (t u : Tcp) (len : ℕ) (segments : List Segment) (left : ℕ) : Type 0 where
  pub events_added : u.events ≡ t.events ++ map segment segments
  pub covers : lengths segments + left ≡ len
  pub numbered : Consecutive t.conn.mss t.conn.send_seq segments
  pub next_number : u.conn.send_seq ≡ (t.conn.send_seq + lengths segments) % 2 ^ 32

nothing_sent : (t : Tcp) (len : ℕ) → t.conn.send_seq < word32 → Sends t t len [] len
nothing_sent t len w = record {
  events_added = sym (append-nil t.events);
  covers = omega arith;
  numbered = tt;
  next_number = omega (arith, w);
}

module _ (queue : Connection → Segment → List Segment) (now : ℕ) where
  abbrev segment_len : Tcp → ℕ → ℕ
  segment_len t left = if ltb t.conn.mss left then t.conn.mss else left

  -- The segment of a round, and the connection after it.
  abbrev first_segment : Tcp → ℕ → Segment
  first_segment t left = new_segment t.conn 24 (segment_len t left) now

  abbrev after_first : Tcp → ℕ → Tcp
  after_first t left =
      let c = send_queued queue t.conn (first_segment t left) in
      record {
        conn = record c { send_seq = (c.send_seq + segment_len t left) % word32 };
        events = t.events ++ segment (first_segment t left) ∷ [];
      }

  segment_len-bounds :
      (t : Tcp) (left : ℕ)
      → 0 < t.conn.mss
      → 0 < left
      → (0 < segment_len t left) × (segment_len t left ≤ t.conn.mss) × (segment_len t left ≤ left)
  segment_len-bounds t left m some_left = ground arith

  one_more :
      (t u : Tcp) (len : ℕ) (segments : List Segment) (left : ℕ)
      → 0 < t.conn.mss
      → 0 < len
      → Sends (after_first t len) u (len - segment_len t len) segments left
      → Sends t u len (first_segment t len ∷ segments) left
  one_more t u len segments left m some_left s =
      let (low, high, inside) = segment_len-bounds t len m some_left in
      record {
        events_added =
            s.events_added
            ∙ append_assoc t.events (segment (first_segment t len) ∷ []) (map segment segments);
        covers = omega (arith, s.covers, inside);
        numbered = (refl, low, high, s.numbered);
        next_number = omega (arith, s.next_number);
      }

  -- What the loop returns.
  abbrev Sent : Tcp → ℕ → (ℕ → Bool) → Tcp × ℕ → Type 0
  Sent t len allocated r =
      (segments : List Segment) × (left : ℕ) × Sends t r.0 len segments left
      × (r.1 ≡ lengths segments)
      × (((k : ℕ) → allocated k ≡ true) → left ≡ 0)

  send_loop_lem :
      (fuel : ℕ) (allocated : ℕ → Bool) (len : ℕ) (t : Tcp)
      → len ≤ fuel
      → 0 < t.conn.mss
      → t.conn.send_seq < word32
      → Sent t len allocated (send_loop (send_queued queue) fuel allocated now len t)
  unfolding send_loop
  send_loop_lem zero allocated len t f m w = ([], len, nothing_sent t len w, refl, λ h. omega arith)
  send_loop_lem (suc fuel) allocated len t f m w = elim (ℕ_discrete len 0) [
    | yes none_left ↦ rw none_left ([], 0, nothing_sent t 0 w, refl, λ h. refl)
    | no ne ↦ rw (==_ne len 0 ne) (elim (Bool-cases (allocated 0)) [
      | inl got ↦
          let (low, high, inside) = segment_len-bounds t len m (omega (arith, ne)) in
          let (segments, left, s, counted, all) =
            send_loop_lem fuel (λ k. allocated (k + 1)) (len - segment_len t len)
              (after_first t len) (omega (arith, low, inside)) m (omega arith) in
          rw got (
            first_segment t len ∷ segments,
            left,
            one_more t _ len segments left m (omega (arith, ne)) s,
            ap (λ (n : ℕ). segment_len t len + n) counted,
            λ h. all (λ k. h (k + 1)),
          )
      | inr out ↦ rw out ([], len, nothing_sent t len w, refl, λ h. absurd (cc (out, h 0)))
    ])
  ]

  -- Where sending only queues, an ESTABLISHED connection with a limit that is not 0 sends segments that are
  -- not empty, no longer than the limit and numbered from the first byte on, for so many bytes of the data
  -- as it returns, as a 32-bit word. Its next number follows, and no byte is left where there is memory for
  -- each segment. What the segments hold is not stated.
  pub tcp_send_lem :
      (allocated : ℕ → Bool) (len : ℕ) (t : Tcp)
      → t.conn.state ≡ established
      → 0 < t.conn.mss
      → t.conn.send_seq < word32
      → let r = tcp_send (send_queued queue) allocated now len t in
        (segments : List Segment) × (left : ℕ) × Sends t r.0 len segments left
        × (r.1 ≡ lengths segments % 2 ^ 32)
        × (((k : ℕ) → allocated k ≡ true) → left ≡ 0)
  unfolding tcp_send
  tcp_send_lem allocated len t e m w =
      let (segments, left, s, counted, all) = send_loop_lem len allocated len t (omega arith) m w in
      subst
        (λ (r : Tcp × ℕ).
          (xs : List Segment) × (rest : ℕ) × Sends t r.0 len xs rest
          × (r.1 ≡ lengths xs % 2 ^ 32)
          × (((k : ℕ) → allocated k ≡ true) → rest ≡ 0))
        (ap (λ (state : TcpState). send_in (send_queued queue) state allocated now len t) (sym e))
        (segments, left, s, ap (λ (n : ℕ). n % 2 ^ 32) counted, all)
