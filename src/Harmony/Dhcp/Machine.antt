-- ===== src/Harmony/Dhcp/Machine.antt =====
-- The states of a client of harmony/dhcp.c, over any sequence of messages and ticks.
use limitless_os.Prelude.{
  ℕ, ◌+◌, ◌%◌, ◌<◌, ◌≤◌, ◌≡◌, refl, ◌⊎◌, inl, inr, Bool, true, false, Bool-cases, List, [], ◌∷◌,
  ◌++◌, ltb, arith,
}
use limitless_os.Temporal.Quantum.{word32}
use limitless_os.Harmony.Ip.{Interface}
use limitless_os.Harmony.Dhcp.{
  DhcpState, init, selecting, requesting, bound, renewing, rebinding, DhcpNumbers, DhcpClient,
  DhcpMessage, DhcpOutput, renews, dhcp_send_discover, dhcp_send_request,
}
use limitless_os.Harmony.Dhcp.Calls.{
  dhcp_handle_offer, dhcp_handle_ack, passed, timed_out, retry_or_stop, tick_client,
}

-- What happens to a client: an offer or an acknowledgement arrives, or the timer ticks. The answers of
-- `flux_allocate` and of the clock stand with it.
pub data DhcpEvent : Type 0 where
  offer : Bool → ℕ → DhcpMessage → DhcpEvent
  ack : ℕ → DhcpMessage → DhcpEvent
  tick : Bool → ℕ → ℕ → DhcpEvent

-- There is memory for the message of each event.
abbrev pub HaveMemory : List DhcpEvent → Type 0
HaveMemory [] = Unit {0}
HaveMemory (offer allocated time msg ∷ events) = (allocated ≡ true) × HaveMemory events
HaveMemory (ack time msg ∷ events) = HaveMemory events
HaveMemory (tick allocated now time ∷ events) = (allocated ≡ true) × HaveMemory events

module _ (k : DhcpNumbers) (at : ℕ → Interface) (parse : List ℕ → DhcpClient → DhcpClient) where
  unfoldable pub step : DhcpEvent → DhcpClient → DhcpClient × List DhcpOutput
  step (offer allocated time msg) client = dhcp_handle_offer k at parse allocated time msg client
  step (ack time msg) client = dhcp_handle_ack parse time msg client
  step (tick allocated now time) client = tick_client k at allocated now time client

  unfoldable pub run_events : List DhcpEvent → DhcpClient → DhcpClient × List DhcpOutput
  run_events [] client = (client, [])
  run_events (e ∷ events) client =
      let (after, sent) = step e client in
      let (last, more) = run_events events after in (last, sent ++ more)

  pub run_two :
      (e f : DhcpEvent) (first second third : DhcpClient) (sent more : List DhcpOutput)
      → step e first ≡ (second, sent)
      → step f second ≡ (third, more)
      → run_events (e ∷ f ∷ []) first ≡ (third, sent ++ (more ++ []))
  unfolding run_events
  run_two e f first second third sent more one two = rw one (rw two refl)

  -- A client that is in INIT stays as it is.
  init_step :
      (e : DhcpEvent) (client : DhcpClient) → client.state ≡ init → step e client ≡ (client, [])
  unfolding step dhcp_handle_offer dhcp_handle_ack tick_client
  init_step (offer allocated time msg) client e = rw e refl
  init_step (ack time msg) client e = rw e refl
  init_step (tick allocated now time) client e = rw e refl

  init_run :
      (events : List DhcpEvent) (client : DhcpClient)
      → client.state ≡ init
      → run_events events client ≡ (client, [])
  unfolding run_events
  init_run [] client e = refl
  init_run (event ∷ events) client e =
      rw (init_step event client e) (rw (init_run events client e) refl)

  stopped : DhcpClient → DhcpClient
  stopped client = record client { retry_count = (client.retry_count + 1) % word32; state = init }

  stops :
      (client : DhcpClient) (now : ℕ) (again : DhcpClient → DhcpClient × List DhcpOutput)
      → timed_out k now client ≡ true
      → k.max_retries ≤ client.retry_count
      → client.retry_count + 1 < word32
      → retry_or_stop k now again client ≡ (stopped client, [])
  unfolding stopped
  stops client now again late many fits = rw late (rw over refl)
    where
      over : ltb k.max_retries ((client.retry_count + 1) % word32) ≡ true
      over = ground arith

  last_tick :
      (client : DhcpClient) (allocated : Bool) (now time : ℕ)
      → (client.state ≡ selecting) ⊎ (client.state ≡ requesting)
      → timed_out k now client ≡ true
      → k.max_retries ≤ client.retry_count
      → client.retry_count + 1 < word32
      → step (tick allocated now time) client ≡ (stopped client, [])
  unfolding step tick_client stopped
  last_tick client allocated now time (inl e) late many fits = rw e (
      stops (record client { state = selecting }) now (dhcp_send_discover k at allocated time) late
        many fits)
  last_tick client allocated now time (inr e) late many fits = rw e (
      stops (record client { state = requesting }) now (dhcp_send_request k at allocated time) late
        many fits)

  -- A client whose request timed out and that has retried as often as it may is in INIT for good, whatever
  -- arrives later: it sends nothing more, and keeps the address it has.
  pub stopped_for_good :
      (client : DhcpClient) (allocated : Bool) (now time : ℕ) (events : List DhcpEvent)
      → (client.state ≡ selecting) ⊎ (client.state ≡ requesting)
      → timed_out k now client ≡ true
      → k.max_retries ≤ client.retry_count
      → client.retry_count + 1 < word32
      → (after : DhcpClient) × (run_events (tick allocated now time ∷ events) client ≡ (after, []))
        × (after.state ≡ init)
        × (after.assigned_addr ≡ client.assigned_addr)
  unfolding run_events stopped
  stopped_for_good client allocated now time events waiting late many fits = (
    stopped client,
    rw (last_tick client allocated now time waiting late many fits)
        (rw (init_run events (stopped client) refl) refl),
    refl,
    refl,
  )

  retry-renews :
      (client : DhcpClient) (now : ℕ) (again : DhcpClient → DhcpClient × List DhcpOutput)
      → renews client.state ≡ false
      → ((c : DhcpClient) → renews (again c).0.state ≡ false)
      → renews (retry_or_stop k now again client).0.state ≡ false
  retry-renews client now again not_renewing sends = elim (Bool-cases (timed_out k now client)) [
    | inl late ↦
        rw late (elim (Bool-cases (ltb k.max_retries ((client.retry_count + 1) % word32))) [
          | inl over ↦ rw over refl
          | inr under ↦
              rw under (sends (record client { retry_count = (client.retry_count + 1) % word32 }))
        ])
    | inr early ↦ rw early not_renewing
  ]

  renews-step :
      (e : DhcpEvent) (client : DhcpClient) (state : DhcpState)
      → client.state ≡ state
      → HaveMemory (e ∷ [])
      → renews state ≡ false
      → renews (step e client).0.state ≡ false
  unfolding step dhcp_handle_offer dhcp_handle_ack tick_client dhcp_send_request dhcp_send_discover
  renews-step (offer allocated time msg) client init is have still = rw is refl
  renews-step (offer allocated time msg) client selecting is (have, _) still = rw is (rw have refl)
  renews-step (offer allocated time msg) client requesting is have still = rw is refl
  renews-step (offer allocated time msg) client bound is have still = rw is refl
  renews-step (ack time msg) client init is have still = rw is refl
  renews-step (ack time msg) client selecting is have still = rw is refl
  renews-step (ack time msg) client requesting is have still = rw is refl
  renews-step (ack time msg) client bound is have still = rw is refl
  renews-step (tick allocated now time) client init is have still = rw is refl
  renews-step (tick allocated now time) client selecting is (have, _) still = rw have (
      rw is (
        retry-renews (record client { state = selecting }) now (dhcp_send_discover k at true time)
          refl (λ c. refl)))
  renews-step (tick allocated now time) client requesting is (have, _) still = rw have (
      rw is (
        retry-renews (record client { state = requesting }) now (dhcp_send_request k at true time)
          refl (λ c. refl)))
  renews-step (tick allocated now time) client bound is (have, _) still = rw have (
      rw is (elim (Bool-cases (passed now client.lease_obtained client.renewal_time)) [
        | inl over ↦ rw over refl
        | inr under ↦ rw under refl
      ]))
  renews-step e client renewing is have still = absurd (cc still)
  renews-step e client rebinding is have still = absurd (cc still)

  -- While there is memory for its messages, a client is never in RENEWING or REBINDING after a call, whatever
  -- arrives, so the ends of its lease are not looked at.
  pub never_renews :
      (events : List DhcpEvent) (client : DhcpClient)
      → HaveMemory events
      → renews client.state ≡ false
      → renews (run_events events client).0.state ≡ false
  unfolding run_events
  never_renews [] client have not_renewing = not_renewing
  never_renews (offer allocated time msg ∷ events) client (have, later) not_renewing =
      never_renews events (step (offer allocated time msg) client).0 later
        (renews-step (offer allocated time msg) client client.state refl (have, tt) not_renewing)
  never_renews (ack time msg ∷ events) client later not_renewing =
      never_renews events (step (ack time msg) client).0 later
        (renews-step (ack time msg) client client.state refl tt not_renewing)
  never_renews (tick allocated now time ∷ events) client (have, later) not_renewing =
      never_renews events (step (tick allocated now time) client).0 later
        (renews-step (tick allocated now time) client client.state refl (have, tt) not_renewing)
