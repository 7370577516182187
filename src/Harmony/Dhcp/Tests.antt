-- ===== src/Harmony/Dhcp/Tests.antt =====
-- A client on interface 1.
use limitless_os.Prelude.{ℕ, ◌≡◌, refl, inl, true, false, List, [], ◌∷◌, arith}
use limitless_os.Harmony.Hosts.{host}
use limitless_os.Harmony.Dhcp.{
  init, selecting, bound, DhcpNumbers, DhcpClient, DhcpMessage, broadcast, configure_interface,
  renews, new_client, dhcp_start,
}
use limitless_os.Harmony.Dhcp.Calls.{route_and_dns}
use limitless_os.Harmony.Dhcp.Machine.{offer, ack, tick, run_events, stopped_for_good, never_renews}
use limitless_os.Harmony.Dhcp.Lease.{Parses, Discovers, Requests, dhcp_lease}

-- The numbers of RFC 2131 and RFC 2132.
abbrev rfc2131 : DhcpNumbers
rfc2131 = record {
  op_request = 1;
  flag_broadcast = 32768;
  magic_cookie = 1669485411;
  msg_discover = 1;
  msg_request = 3;
  opt_msg_type = 53;
  opt_client_id = 61;
  opt_requested_ip = 50;
  opt_server_id = 54;
  opt_param_list = 55;
  opt_subnet_mask = 1;
  opt_router = 3;
  opt_dns = 6;
  opt_domain_name = 15;
  opt_end = 255;
  request_timeout = 5000000;
  max_retries = 5;
  client_port = 68;
}

abbrev server_message : DhcpMessage
server_message = record {
  op = 2;
  htype = 1;
  hlen = 6;
  hops = 0;
  xid = 77;
  secs = 0;
  flags = 0;
  ciaddr = 0;
  yiaddr = 167772165;
  chaddr = [];
  magic = 1669485411;
  options = [];
}

-- Every message gives an hour.
abbrev one_hour : List ℕ → DhcpClient → DhcpClient
one_hour options client = record client { lease_time = 3600 }

one_hour-Parses : Parses one_hour
one_hour-Parses = record {
  same_xid = λ options client. refl;
  same_interface = λ options client. refl;
  same_offer = λ options client. refl;
  same_address = λ options client. refl;
}

dhcp_lease_example :
    (client : DhcpClient) × (after : DhcpClient) × (discover : DhcpMessage)
    × (request : DhcpMessage) × (dhcp_start rfc2131 host true true 10 77 1 []
        ≡ (client ∷ [], 0, broadcast 1 discover ∷ []))
    × Discovers rfc2131 (2 ∷ 0 ∷ 0 ∷ 0 ∷ 0 ∷ 1 ∷ []) 77 discover
    × (run_events rfc2131 host one_hour
          (offer true 20 server_message ∷ ack 30 server_message ∷ [])
          client
        ≡ (
          after,
          broadcast 1 request
              ∷ configure_interface 1 167772165 after.subnet_mask
              ∷ route_and_dns after,
        ))
    × Requests rfc2131 (2 ∷ 0 ∷ 0 ∷ 0 ∷ 0 ∷ 1 ∷ []) 77 167772165 request
    × (after.state ≡ bound)
    × (after.assigned_addr ≡ 167772165)
    × (after.lease_obtained ≡ 30)
dhcp_lease_example =
    dhcp_lease rfc2131 host one_hour one_hour-Parses 1 77 10 20 30 [] server_message server_message
      (omega arith)

abbrev leased : DhcpClient
leased = record (new_client 1 77) {
  state = bound;
  assigned_addr = 167772165;
  lease_time = 3600;
  renewal_time = 1800;
}

never_renews_example :
    renews
      (run_events rfc2131 host one_hour
        (tick true 1800000001 1800000001 ∷ tick true 3700000000 3700000000 ∷ [])
        leased).0.state
    ≡ false
never_renews_example =
    never_renews rfc2131 host one_hour
      (tick true 1800000001 1800000001 ∷ tick true 3700000000 3700000000 ∷ []) leased
      (refl, (refl, tt)) refl

abbrev tired : DhcpClient
tired = record (new_client 1 77) { state = selecting; retry_count = 5 }

stopped_for_good_example :
    (after : DhcpClient) × (run_events rfc2131 host one_hour
        (tick true 5000001 5000001 ∷ offer true 5000002 server_message ∷ [])
        tired
      ≡ (after, []))
    × (after.state ≡ init)
    × (after.assigned_addr ≡ 0)
stopped_for_good_example =
    stopped_for_good rfc2131 host one_hour tired true 5000001 5000001
      (offer true 5000002 server_message ∷ []) (inl refl) refl (omega arith) (omega arith)
