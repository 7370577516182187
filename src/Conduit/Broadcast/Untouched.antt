-- ===== src/Conduit/Broadcast/Untouched.antt =====
-- Whom a broadcast does not reach.
use limitless_os.Prelude.{
  ℕ, zero, suc, ◌≡◌, refl, ap, ◌∙◌, Bool, true, false, Option, none, some, List, if◌then◌else◌,
  update_ne, ◌≤◌, ◌+◌, arith,
}
use limitless_os.Conduit.Endpoint.{Endpoint}
use limitless_os.Conduit.Registry.{Tables, max_conduits}
use limitless_os.Conduit.Broadcast.{
  matches, send_to, broadcast_to, broadcast_loop, conduit_broadcast, is_positive,
}

module _ (meanwhile : Endpoint → Endpoint) (node : Bool) (self : ℕ) (pattern : List ℕ)
    (message : Option (List ℕ)) (size flags : ℕ) where
  -- What a part of a broadcast leaves alone, and how many messages it can count.
  abbrev Spares : ℕ → ℕ → ℕ × Tables → ℕ × Tables → Type 0
  Spares q n r r' =
      (r'.1.store q ≡ r.1.store q)
      × (r'.1.conduits ≡ r.1.conduits)
      × (r.0 ≤ r'.0)
      × (r'.0 ≤ r.0 + n)

  broadcast_to_lem :
      (r : ℕ × Tables) (o : Option ℕ) (q : ℕ)
      → matches meanwhile node self pattern message size flags (r.1.store q) ≡ false
      → Spares q 1 r (broadcast_to meanwhile node self pattern message size flags r o)
  broadcast_to_lem r none q unmatched = (refl, refl, omega arith, omega arith)
  broadcast_to_lem r (some p) q unmatched =
      branch (matches meanwhile node self pattern message size flags (r.1.store p)) refl
    where
      sent : ℕ × Tables
      sent =
          let (result, t') = send_to meanwhile node self pattern message size flags r.1 p in
          (if is_positive result then r.0 + 1 else r.0, t')

      branch :
          (b : Bool)
          → matches meanwhile node self pattern message size flags (r.1.store p) ≡ b
          → Spares q 1 r (if b then sent else r)
      branch true e = (
        update_ne r.1.store p _ q (λ same. cc (e, unmatched, ap r.1.store same)),
        refl,
        ground arith,
        ground arith,
      )
      branch false e = (refl, refl, omega arith, omega arith)

  broadcast_loop_lem :
      (n i : ℕ) (r : ℕ × Tables) (q : ℕ)
      → matches meanwhile node self pattern message size flags (r.1.store q) ≡ false
      → Spares q n r (broadcast_loop meanwhile node self pattern message size flags n i r)
  broadcast_loop_lem zero i r q unmatched = (refl, refl, omega arith, omega arith)
  broadcast_loop_lem (suc n) i r q unmatched =
      let r' = broadcast_to meanwhile node self pattern message size flags r (r.1.conduits i) in
      let (kept, slots, more, most) = broadcast_to_lem r (r.1.conduits i) q unmatched in
      let (kept', slots', more', most') =
        broadcast_loop_lem n (suc i) r' q
          (ap (matches meanwhile node self pattern message size flags) kept ∙ unmatched) in
      (kept' ∙ kept, slots' ∙ slots, omega arith, omega arith)

  -- A broadcast leaves every conduit as it was that is not open or whose name does not contain the
  -- pattern, keeps all slots, and counts at most one message for each slot.
  pub conduit_broadcast_lem :
      (t : Tables) (q : ℕ)
      → matches meanwhile node self pattern message size flags (t.store q) ≡ false
      → let (sent_count, t') = conduit_broadcast meanwhile node self pattern message size flags t in
        (t'.store q ≡ t.store q) × (t'.conduits ≡ t.conduits) × (sent_count ≤ max_conduits)
  unfolding conduit_broadcast
  conduit_broadcast_lem t q unmatched =
      let (kept, slots, more, most) = broadcast_loop_lem max_conduits 0 (0, t) q unmatched in
      (kept, slots, omega arith)
