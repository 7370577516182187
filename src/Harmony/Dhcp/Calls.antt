-- ===== src/Harmony/Dhcp/Calls.antt =====
-- The handlers of offers and acknowledgements, the timer, and the start and the end of harmony/dhcp.c.
use limitless_os.Prelude.{
  ℕ, ◌+◌, ◌-◌, ◌*◌, ◌/◌, ◌%◌, Bool, not, List, [], ◌∷◌, ◌++◌, get_or, ltb, ◌==◌, if◌then◌else◌,
}
use limitless_os.Temporal.Quantum.{word32, word64}
use limitless_os.Harmony.Ip.{Interface}
use limitless_os.Harmony.Dhcp.{
  init, selecting, requesting, bound, renewing, rebinding, DhcpNumbers, DhcpClient, DhcpMessage,
  DhcpOutput, configure_interface, default_route, dns_server, release, register_handler,
  dhcp_send_discover, dhcp_send_request,
}

-- `parse` is `dhcp_parse_options`, which no file defines.
unfoldable pub dhcp_handle_offer :
    DhcpNumbers
    → (ℕ → Interface)
    → (List ℕ → DhcpClient → DhcpClient)
    → Bool
    → ℕ
    → DhcpMessage
    → DhcpClient
    → DhcpClient × List DhcpOutput
dhcp_handle_offer k at parse allocated time msg client =
    let offered = parse msg.options (record client { offered_addr = msg.yiaddr }) in
    elim client.state [
      | selecting ↦ dhcp_send_request k at allocated time offered
      | _ ↦ (client, [])
    ]

abbrev pub route_and_dns : DhcpClient → List DhcpOutput
route_and_dns client =
    let gateway = client.gateway_addr in
    let dns = get_or client.dns_addr 0 0 in
    (if gateway == 0 then [] else default_route gateway client.interface ∷ [])
    ++ (if dns == 0 then [] else dns_server dns ∷ [])

abbrev pub ack_outputs : DhcpClient → List DhcpOutput
ack_outputs client =
    configure_interface client.interface client.assigned_addr client.subnet_mask
    ∷ route_and_dns client

abbrev pub bind_client : ℕ → DhcpClient → DhcpClient × List DhcpOutput
bind_client time client =
    let renewal = if client.renewal_time == 0 then client.lease_time / 2 else client.renewal_time in
    (
      record client { state = bound; lease_obtained = time; renewal_time = renewal },
      ack_outputs client,
    )

unfoldable pub dhcp_handle_ack :
    (List ℕ → DhcpClient → DhcpClient) → ℕ → DhcpMessage → DhcpClient → DhcpClient × List DhcpOutput
dhcp_handle_ack parse time msg client =
    let parsed = parse msg.options (record client { assigned_addr = msg.yiaddr }) in
    elim client.state [
      | init ↦ (client, [])
      | selecting ↦ (client, [])
      | bound ↦ (client, [])
      | _ ↦ bind_client time parsed
    ]

-- The products of a `uint32_t` and 1000000 have 32 bits.
abbrev pub passed : ℕ → ℕ → ℕ → Bool
passed now since seconds = ltb (seconds * 1000000 % word32) ((now + word64 - since) % word64)

abbrev pub timed_out : DhcpNumbers → ℕ → DhcpClient → Bool
timed_out k now client = ltb k.request_timeout ((now + word64 - client.last_request) % word64)

-- Where a request has timed out, with `again` the call that sends it again.
abbrev pub retry_or_stop :
    DhcpNumbers
    → ℕ
    → (DhcpClient → DhcpClient × List DhcpOutput)
    → DhcpClient
    → DhcpClient × List DhcpOutput
retry_or_stop k now again client =
    let counted = record client { retry_count = (client.retry_count + 1) % word32 } in
    if not (timed_out k now client)
    then (client, [])
    else if ltb k.max_retries counted.retry_count
    then (record counted { state = init }, [])
    else again counted

-- The part of `dhcp_timer_tick` for one client: `time` is read where a message is sent.
unfoldable pub tick_client :
    DhcpNumbers → (ℕ → Interface) → Bool → ℕ → ℕ → DhcpClient → DhcpClient × List DhcpOutput
tick_client k at allocated now time client = elim client.state [
  | init ↦ (client, [])
  | selecting ↦ retry_or_stop k now (dhcp_send_discover k at allocated time) client
  | requesting ↦ retry_or_stop k now (dhcp_send_request k at allocated time) client
  | bound ↦
      if passed now client.lease_obtained client.renewal_time
      then dhcp_send_request k at allocated time (record client { state = renewing })
      else (client, [])
  | renewing ↦
      if passed now client.lease_obtained client.rebinding_time
      then dhcp_send_request k at allocated time (record client { state = rebinding })
      else (client, [])
  | rebinding ↦
      if passed now client.lease_obtained client.lease_time
      then dhcp_send_discover k at allocated time
          (record client { state = init; assigned_addr = 0 })
      else (client, [])
]

-- The answers of `flux_allocate` and of the clock are those for each client, from the next on.
unfoldable pub dhcp_timer_tick :
    DhcpNumbers
    → (ℕ → Interface)
    → (ℕ → Bool)
    → ℕ
    → (ℕ → ℕ)
    → List DhcpClient
    → List DhcpClient × List DhcpOutput
dhcp_timer_tick k at allocated now time [] = ([], [])
dhcp_timer_tick k at allocated now time (client ∷ rest) =
    let (changed, sent) = tick_client k at (allocated 0) now (time 0) client in
    let (later, more) =
      dhcp_timer_tick k at (λ i. allocated (i + 1)) now (λ i. time (i + 1)) rest in
    (changed ∷ later, sent ++ more)

-- The clients after the call, and its output.
unfoldable pub dhcp_init : DhcpNumbers → List DhcpClient × List DhcpOutput
dhcp_init k = ([], register_handler k.client_port ∷ [])

abbrev pub release_bound : DhcpClient → List DhcpOutput
release_bound client = elim client.state [ bound ↦ release client ∷ [] | _ ↦ [] ]

unfoldable pub dhcp_cleanup : List DhcpClient → List DhcpClient × List DhcpOutput
dhcp_cleanup [] = ([], [])
dhcp_cleanup (client ∷ rest) =
    let (left, released) = dhcp_cleanup rest in (left, release_bound client ++ released)
