-- ===== src/Conduit/Broadcast.antt =====
-- `strstr`, `conduit_broadcast`, `conduit_get_stats` and `conduit_get_global_stats` of
-- continuum/conduit_ipc.c.
pub mod Search
pub mod Untouched
use limitless_os.Prelude.{
  ℕ, zero, suc, ◌+◌, ◌*◌, ◌%◌, ◌^◌, Bool, true, false, ◌&&◌, Option, none, some, List, [], ◌∷◌, ltb,
  ◌==◌, if◌then◌else◌, update,
}
use limitless_os.Temporal.Quantum.{word32}
use limitless_os.Conduit.Endpoint.{
  Conduit, ConduitStats, Endpoint, Result, done, failed, fault, is_open, with_nonblock,
  conduit_send,
}
use limitless_os.Conduit.Registry.{Tables, max_conduits}

-- What is left of the needle when the inner loop of `strstr` stops.
abbrev pub after_match : List ℕ → List ℕ → List ℕ
after_match h [] = []
after_match [] (c ∷ n) = c ∷ n
after_match (d ∷ h) (c ∷ n) = let rest = after_match h n in if d == c then rest else c ∷ n

abbrev pub is_nil : List ℕ → Bool
is_nil [] = true
is_nil (c ∷ cs) = false

abbrev pub search_loop : List ℕ → List ℕ → Option (List ℕ)
search_loop [] needle = none
search_loop (c ∷ haystack) needle =
    let rest = search_loop haystack needle in
    if is_nil (after_match (c ∷ haystack) needle) then some (c ∷ haystack) else rest

-- The result is the string that the returned pointer leads to.
unfoldable pub strstr : List ℕ → List ℕ → Option (List ℕ)
strstr haystack needle = if is_nil needle then some haystack else search_loop haystack needle

abbrev pub is_some : Option (List ℕ) → Bool
is_some none = false
is_some (some s) = true

-- Whether the result of `conduit_send` is positive as a number of 64 bits with a sign.
abbrev pub is_positive : Result ℕ → Bool
is_positive (done n) = ltb 0 n && ltb n (2 ^ 63)
is_positive (failed e) = false
is_positive fault = false

-- `node` and `self` as for `conduit_send`, which does not wait here.
module _ (meanwhile : Endpoint → Endpoint) (node : Bool) (self : ℕ) (pattern : List ℕ)
    (message : Option (List ℕ)) (size flags : ℕ) where
  -- The call of `conduit_send` on the conduit at `p`.
  abbrev pub send_to : Tables → ℕ → Result ℕ × Tables
  send_to t p =
      let (result, e) =
        conduit_send meanwhile node self
          (record { conduit = t.store p; sched = t.sched; registry = t.registry }) message size
          (with_nonblock flags) in
      (
        result,
        record t { store = update t.store p e.conduit; sched = e.sched; registry = e.registry },
      )

  abbrev pub matches : Conduit → Bool
  matches c = is_open c.state && is_some (strstr c.name pattern)

  -- The body of the loop.
  abbrev pub broadcast_to : ℕ × Tables → Option ℕ → ℕ × Tables
  broadcast_to (sent_count, t) none = (sent_count, t)
  broadcast_to (sent_count, t) (some p) =
      if matches (t.store p)
      then (let (result, t') = send_to t p in
          (if is_positive result then sent_count + 1 else sent_count, t'))
      else (sent_count, t)

  -- So many rounds from slot `i` on.
  abbrev pub broadcast_loop : ℕ → ℕ → ℕ × Tables → ℕ × Tables
  broadcast_loop zero i r = r
  broadcast_loop (suc n) i (sent_count, t) =
      broadcast_loop n (suc i) (broadcast_to (sent_count, t) (t.conduits i))

  unfoldable pub conduit_broadcast : Tables → ℕ × Tables
  unfolding strstr conduit_send
  conduit_broadcast t = broadcast_loop max_conduits 0 (0, t)

-- Both pointers may be null; the second says whether there is a place for the result.
unfoldable pub conduit_get_stats : Option Conduit → Bool → Option ConduitStats
conduit_get_stats none out = none
conduit_get_stats (some c) out = if out then some c.stats else none

-- `conduit_global_stats_t`
pub record GlobalStats : Type 0 where
  pub total_conduits : ℕ
  pub active_conduits : ℕ
  pub total_messages : ℕ
  pub total_bytes : ℕ

abbrev pub is_active : Tables → Option ℕ → Bool
is_active t none = false
is_active t (some p) = is_open (t.store p).state

abbrev pub active_loop : Tables → ℕ → ℕ → ℕ → ℕ
active_loop t zero i active = active
active_loop t (suc n) i active =
    active_loop t n (suc i) (if is_active t (t.conduits i) then (active + 1) % word32 else active)

unfoldable pub conduit_get_global_stats : Tables → Bool → Option GlobalStats
conduit_get_global_stats t out =
    let registry = t.registry in
    if out
    then some (record {
      total_conduits = registry.conduit_count;
      active_conduits = active_loop t max_conduits 0 0;
      total_messages = registry.message_count;
      total_bytes = registry.total_bytes;
    })
    else none
