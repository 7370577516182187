-- ===== src/Harmony/Dhcp/Lease.antt =====
-- A lease of harmony/dhcp.c, from the first message to the address.
use limitless_os.Prelude.{
  ℕ, ◌≡◌, ◌≢◌, ◌/◌, ◌%◌, refl, ap, ap₂, ◌∙◌, Bool, true, List, [], ◌∷◌, ◌++◌, take, append-nil,
  append_assoc, ◌==◌, ==_refl, ==_ne, if◌then◌else◌,
}
use limitless_os.Harmony.Ip.{Interface}
use limitless_os.Harmony.Dhcp.{
  selecting, requesting, bound, DhcpNumbers, DhcpClient, DhcpMessage, DhcpOutput, broadcast,
  unicast, configure_interface, dhcp_create_message, dhcp_send_discover, dhcp_send_request,
  new_client, dhcp_start, dhcp_options, address_option,
}
use limitless_os.Harmony.Arp.Calls.{be32_bytes}
use limitless_os.Harmony.Dhcp.Calls.{dhcp_handle_offer, route_and_dns, bind_client, dhcp_handle_ack}
use limitless_os.Harmony.Dhcp.Machine.{offer, ack, step, run_events, run_two}

-- What `dhcp_parse_options` leaves to its callers: it sets what the options of a message hold, which are
-- neither the state of the client, nor its number or interface, nor the addresses in the header of the message.
pub record Parses (parse : List ℕ → DhcpClient → DhcpClient) : Type 0 where
  pub same_xid : (options : List ℕ) (client : DhcpClient) → (parse options client).xid ≡ client.xid
  pub same_interface :
      (options : List ℕ) (client : DhcpClient) → (parse options client).interface ≡ client.interface
  pub same_offer :
      (options : List ℕ) (client : DhcpClient)
      → (parse options client).offered_addr ≡ client.offered_addr
  pub same_address :
      (options : List ℕ) (client : DhcpClient)
      → (parse options client).assigned_addr ≡ client.assigned_addr

-- A message that looks for servers, from the client `xid` with the address `mac`.
pub record Discovers (k : DhcpNumbers) (mac : List ℕ) (xid : ℕ) (msg : DhcpMessage) : Type 0 where
  pub op_of : msg.op ≡ k.op_request
  pub xid_of : msg.xid ≡ xid
  pub chaddr_of : msg.chaddr ≡ take 6 mac
  pub more : List ℕ
  pub options_of : msg.options ≡ k.opt_msg_type ∷ 1 ∷ k.msg_discover ∷ more

-- A message that asks for an address: its options are the kind of the message, the client, the address, and
-- more.
pub record Requests (k : DhcpNumbers) (mac : List ℕ) (xid address : ℕ) (msg : DhcpMessage)
    : Type 0 where
  pub op_of : msg.op ≡ k.op_request
  pub xid_of : msg.xid ≡ xid
  pub chaddr_of : msg.chaddr ≡ take 6 mac
  pub more : List ℕ
  pub options_of :
      msg.options
      ≡ k.opt_msg_type ∷ 1 ∷ k.msg_request ∷ k.opt_client_id ∷ 7 ∷ 1 ∷ take 6 mac
        ++ (k.opt_requested_ip
            ∷ 4
            ∷ address / 16777216 % 256
            ∷ address / 65536 % 256
            ∷ address / 256 % 256
            ∷ address % 256
            ∷ more)

request-Requests :
    (k : DhcpNumbers) (at : ℕ → Interface) (client : DhcpClient) (iface xid address : ℕ)
    → client.interface ≡ iface
    → client.xid ≡ xid
    → client.offered_addr ≡ address
    → address ≢ 0
    → Requests k (at iface).mac_addr xid address (dhcp_create_message k at k.msg_request client)
unfolding dhcp_create_message dhcp_options
request-Requests k at client iface xid address same_iface same_xid same_address some_address =
    record {
      op_of = refl;
      xid_of = same_xid;
      chaddr_of = ap (λ (i : ℕ). take 6 (at i).mac_addr) same_iface;
      more = others;
      options_of =
          ap₂ (λ (i : ℕ) (asked : List ℕ). start (at i).mac_addr ++ asked ++ server ++ parameters)
            same_iface asks
          ∙ append_assoc (start (at iface).mac_addr ++ address_bytes) server parameters
          ∙ append_assoc (start (at iface).mac_addr) address_bytes others;
    }
  where
    start : List ℕ → List ℕ
    start mac = k.opt_msg_type ∷ 1 ∷ k.msg_request ∷ k.opt_client_id ∷ 7 ∷ 1 ∷ take 6 mac

    server : List ℕ
    server = address_option k k.msg_request k.opt_server_id client.server_addr

    parameters : List ℕ
    parameters =
        k.opt_param_list ∷ 4 ∷ k.opt_subnet_mask ∷ k.opt_router ∷ k.opt_dns ∷ k.opt_domain_name
        ∷ k.opt_end ∷ []

    others : List ℕ
    others = server ++ parameters

    address_bytes : List ℕ
    address_bytes = k.opt_requested_ip ∷ 4 ∷ be32_bytes address

    asks : address_option k k.msg_request k.opt_requested_ip client.offered_addr ≡ address_bytes
    asks =
        ap (address_option k k.msg_request k.opt_requested_ip) same_address
        ∙ rw (==_refl k.msg_request, ==_ne address 0 some_address) refl

module _ (k : DhcpNumbers) (at : ℕ → Interface) (parse : List ℕ → DhcpClient → DhcpClient)
    (parses : Parses parse) where
  request_broadcast :
      (c : DhcpClient) (iface time : ℕ)
      → c.assigned_addr ≡ 0
      → c.interface ≡ iface
      → dhcp_send_request k at true time c ≡ (
        record c { state = requesting; last_request = time },
        broadcast iface (dhcp_create_message k at k.msg_request c) ∷ [],
      )
  unfolding dhcp_send_request
  request_broadcast c iface time none_yet same =
      ap
        (λ (b : Bool).
          (requests, (if b then broadcast c.interface msg else unicast c.server_addr msg) ∷ []))
        (ap (λ (n : ℕ). n == 0) none_yet)
      ∙ ap (λ (i : ℕ). (requests, broadcast i msg ∷ [])) same
    where
      requests : DhcpClient
      requests = record c { state = requesting; last_request = time }

      msg : DhcpMessage
      msg = dhcp_create_message k at k.msg_request c

  offer_answered :
      (client : DhcpClient) (time : ℕ) (msg : DhcpMessage)
      → client.state ≡ selecting
      → client.assigned_addr ≡ 0
      → (requests : DhcpClient) × (step k at parse (offer true time msg) client ≡ (
        record requests { state = requesting; last_request = time },
        broadcast client.interface (dhcp_create_message k at k.msg_request requests) ∷ [],
      ))
        × (requests.offered_addr ≡ msg.yiaddr)
        × (requests.interface ≡ client.interface)
        × (requests.xid ≡ client.xid)
  unfolding step dhcp_handle_offer
  offer_answered client time msg is none_yet = (
    offered,
    rw is (
        request_broadcast
          (parse msg.options (record client { state = selecting; offered_addr = msg.yiaddr }))
          client.interface time
          (parses.same_address msg.options
              (record client { state = selecting; offered_addr = msg.yiaddr })
            ∙ none_yet)
          (parses.same_interface msg.options
            (record client { state = selecting; offered_addr = msg.yiaddr }))),
    parses.same_offer msg.options (record client { offered_addr = msg.yiaddr }),
    parses.same_interface msg.options (record client { offered_addr = msg.yiaddr }),
    parses.same_xid msg.options (record client { offered_addr = msg.yiaddr }),
  )
    where
      offered : DhcpClient
      offered = parse msg.options (record client { offered_addr = msg.yiaddr })

  ack_answered :
      (client : DhcpClient) (time : ℕ) (msg : DhcpMessage)
      → client.state ≡ requesting
      → (after : DhcpClient) × (step k at parse (ack time msg) client ≡ (
        after,
        configure_interface client.interface msg.yiaddr after.subnet_mask ∷ route_and_dns after,
      ))
        × (after.state ≡ bound)
        × (after.assigned_addr ≡ msg.yiaddr)
        × (after.lease_obtained ≡ time)
  unfolding step dhcp_handle_ack
  ack_answered client time msg is = (
    (bind_client time parsed).0,
    rw is (
        ap₂
          (λ (i a : ℕ). (
            (bind_client time (
                parse msg.options
                  (record client { state = requesting; assigned_addr = msg.yiaddr }))).0,
            configure_interface i a
                  (parse msg.options
                    (record client { state = requesting; assigned_addr = msg.yiaddr })).subnet_mask
                ∷ route_and_dns (
                    parse msg.options
                      (record client { state = requesting; assigned_addr = msg.yiaddr })),
          ))
          (parses.same_interface msg.options
            (record client { state = requesting; assigned_addr = msg.yiaddr }))
          (parses.same_address msg.options
            (record client { state = requesting; assigned_addr = msg.yiaddr }))),
    refl,
    parses.same_address msg.options (record client { assigned_addr = msg.yiaddr }),
    refl,
  )
    where
      parsed : DhcpClient
      parsed = parse msg.options (record client { assigned_addr = msg.yiaddr })

  -- A client that finds memory broadcasts a message that looks for servers; an offer of an address is
  -- answered by a broadcast request whose options ask for that address, and the acknowledgement binds the
  -- client to its address, which the interface gets. It is required of dhcp_parse_options that it keeps
  -- the number, the interface and both addresses of the client.
  pub dhcp_lease :
      (iface xid started asked time : ℕ) (clients : List DhcpClient)
      (offered acknowledgement : DhcpMessage)
      → offered.yiaddr ≢ 0
      → (client : DhcpClient) × (after : DhcpClient) × (discover : DhcpMessage)
        × (request : DhcpMessage) × (dhcp_start k at true true started xid iface clients
            ≡ (client ∷ clients, 0, broadcast iface discover ∷ []))
        × Discovers k (at iface).mac_addr xid discover
        × (run_events k at parse (offer true asked offered ∷ ack time acknowledgement ∷ []) client
            ≡ (
              after,
              broadcast iface request
                  ∷ configure_interface iface acknowledgement.yiaddr after.subnet_mask
                  ∷ route_and_dns after,
            ))
        × Requests k (at iface).mac_addr xid offered.yiaddr request
        × (after.state ≡ bound)
        × (after.assigned_addr ≡ acknowledgement.yiaddr)
        × (after.lease_obtained ≡ time)
  unfolding dhcp_start dhcp_send_discover dhcp_create_message dhcp_options
  dhcp_lease iface xid started asked time clients offered acknowledgement some_address =
      let client = (dhcp_send_discover k at true started (new_client iface xid)).0 in
      let (requests, answered, same_offer, same_interface, same_xid) =
        offer_answered client asked offered refl refl in
      let asking : DhcpClient = record requests { state = requesting; last_request = asked } in
      let (after, configured, is_bound, address, obtained) =
        ack_answered asking time acknowledgement refl in
      (
        client,
        after,
        dhcp_create_message k at k.msg_discover (new_client iface xid),
        dhcp_create_message k at k.msg_request requests,
        refl,
        record { op_of = refl; xid_of = refl; chaddr_of = refl; more = _; options_of = refl },
        (run_two k at parse (offer true asked offered) (ack time acknowledgement) client asking
              after _ _ answered configured
            ∙ ap₂
                (λ (i : ℕ) (r : List DhcpOutput). (
                  after,
                  broadcast iface (dhcp_create_message k at k.msg_request requests)
                      ∷ configure_interface i acknowledgement.yiaddr after.subnet_mask
                      ∷ r,
                ))
                same_interface (append-nil (route_and_dns after))),
        request-Requests k at requests iface xid offered.yiaddr same_interface same_xid same_offer
            some_address,
        is_bound,
        address,
        obtained,
      )
