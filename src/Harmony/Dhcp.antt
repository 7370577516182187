-- ===== src/Harmony/Dhcp.antt =====
-- harmony/dhcp.c. A client is changed by one call at a time. What a call hands to harmony/udp.c, to
-- harmony/ip.c or to a function that no file defines is its output. The results of the calls that send
-- are not read.
pub mod Calls
pub mod Machine
pub mod Lease
mod Tests
use limitless_os.Prelude.{
  ℕ, zero, suc, ◌+◌, ◌-◌, ◌*◌, ◌/◌, ◌%◌, Bool, true, false, not, ◌&&◌, ◌||◌, List, [], ◌∷◌, ◌++◌,
  map, take, replicate, get_or, ltb, ◌==◌, if◌then◌else◌,
}
use limitless_os.Temporal.Quantum.{word32, word64}
use limitless_os.Harmony.Ip.{Interface, failure}
use limitless_os.Harmony.Arp.Calls.{be32_bytes}

pub data DhcpState : Type 0 where
  init : DhcpState
  selecting : DhcpState
  requesting : DhcpState
  bound : DhcpState
  renewing : DhcpState
  rebinding : DhcpState

-- The constants of dhcp.h, which is not in the repository.
pub record DhcpNumbers : Type 0 where
  pub op_request : ℕ
  pub flag_broadcast : ℕ
  pub magic_cookie : ℕ
  pub msg_discover : ℕ
  pub msg_request : ℕ
  pub opt_msg_type : ℕ
  pub opt_client_id : ℕ
  pub opt_requested_ip : ℕ
  pub opt_server_id : ℕ
  pub opt_param_list : ℕ
  pub opt_subnet_mask : ℕ
  pub opt_router : ℕ
  pub opt_dns : ℕ
  pub opt_domain_name : ℕ
  pub opt_end : ℕ
  pub request_timeout : ℕ
  pub max_retries : ℕ
  pub client_port : ℕ

pub record DhcpClient : Type 0 where
  pub interface : ℕ
  pub state : DhcpState
  pub xid : ℕ
  pub offered_addr : ℕ
  pub assigned_addr : ℕ
  pub server_addr : ℕ
  pub gateway_addr : ℕ
  pub dns_addr : List ℕ
  pub subnet_mask : ℕ
  pub lease_time : ℕ
  pub renewal_time : ℕ
  pub rebinding_time : ℕ
  pub lease_obtained : ℕ
  pub retry_count : ℕ
  pub last_request : ℕ

-- The fields that are set or read; numbers are as `ntohl` and `ntohs` give them, and what is behind the
-- options is 0.
pub record DhcpMessage : Type 0 where
  pub op : ℕ
  pub htype : ℕ
  pub hlen : ℕ
  pub hops : ℕ
  pub xid : ℕ
  pub secs : ℕ
  pub flags : ℕ
  pub ciaddr : ℕ
  pub yiaddr : ℕ
  pub chaddr : List ℕ
  pub magic : ℕ
  pub options : List ℕ

pub data DhcpOutput : Type 0 where
  broadcast : ℕ → DhcpMessage → DhcpOutput
  unicast : ℕ → DhcpMessage → DhcpOutput
  configure_interface : ℕ → ℕ → ℕ → DhcpOutput
  default_route : ℕ → ℕ → DhcpOutput
  dns_server : ℕ → DhcpOutput
  release : DhcpClient → DhcpOutput
  register_handler : ℕ → DhcpOutput

abbrev pub renews : DhcpState → Bool
renews renewing = true
renews rebinding = true
renews s = false

-- An option of an address, for a request that has the address.
abbrev pub address_option : DhcpNumbers → ℕ → ℕ → ℕ → List ℕ
address_option k kind option address =
    if kind == k.msg_request && not (address == 0) then option ∷ 4 ∷ be32_bytes address else []

unfoldable pub dhcp_options : DhcpNumbers → List ℕ → ℕ → DhcpClient → List ℕ
dhcp_options k mac kind client =
    k.opt_msg_type ∷ 1 ∷ kind ∷ k.opt_client_id ∷ 7 ∷ 1 ∷ take 6 mac
    ++ address_option k kind k.opt_requested_ip client.offered_addr
    ++ address_option k kind k.opt_server_id client.server_addr
    ++ k.opt_param_list ∷ 4 ∷ k.opt_subnet_mask ∷ k.opt_router ∷ k.opt_dns ∷ k.opt_domain_name
      ∷ k.opt_end ∷ []

unfoldable pub dhcp_create_message : DhcpNumbers → (ℕ → Interface) → ℕ → DhcpClient → DhcpMessage
dhcp_create_message k at kind client =
    let mac = (at client.interface).mac_addr in
    record {
      op = k.op_request;
      htype = 1;
      hlen = 6;
      hops = 0;
      xid = client.xid;
      secs = 0;
      flags = k.flag_broadcast;
      ciaddr = if renews client.state then client.assigned_addr else 0;
      yiaddr = 0;
      chaddr = take 6 mac;
      magic = k.magic_cookie;
      options = dhcp_options k mac kind client;
    }

-- `allocated` says whether `flux_allocate` finds memory for the message, and `time` is the reading of
-- `temporal_get_time`.
unfoldable pub dhcp_send_discover :
    DhcpNumbers → (ℕ → Interface) → Bool → ℕ → DhcpClient → DhcpClient × List DhcpOutput
dhcp_send_discover k at allocated time client =
    if allocated
    then (
      record client { state = selecting; last_request = time },
      broadcast client.interface (dhcp_create_message k at k.msg_discover client) ∷ [],
    )
    else (client, [])

unfoldable pub dhcp_send_request :
    DhcpNumbers → (ℕ → Interface) → Bool → ℕ → DhcpClient → DhcpClient × List DhcpOutput
dhcp_send_request k at allocated time client =
    let msg = dhcp_create_message k at k.msg_request client in
    if allocated
    then (
      record client { state = requesting; last_request = time },
      (if client.assigned_addr == 0
            then broadcast client.interface msg
            else unicast client.server_addr msg)
          ∷ [],
    )
    else (client, [])

abbrev pub new_client : ℕ → ℕ → DhcpClient
new_client iface xid = record {
  interface = iface;
  state = init;
  xid = xid;
  offered_addr = 0;
  assigned_addr = 0;
  server_addr = 0;
  gateway_addr = 0;
  dns_addr = replicate 4 0;
  subnet_mask = 0;
  lease_time = 0;
  renewal_time = 0;
  rebinding_time = 0;
  lease_obtained = 0;
  retry_count = 0;
  last_request = 0;
}

-- `first` is for the client and `second` for the message; `xid` is what `harmony_random` returns.
unfoldable pub dhcp_start :
    DhcpNumbers
    → (ℕ → Interface)
    → Bool
    → Bool
    → ℕ
    → ℕ
    → ℕ
    → List DhcpClient
    → List DhcpClient × ℕ × List DhcpOutput
dhcp_start k at first second time xid iface clients =
    let (client, sent) = dhcp_send_discover k at second time (new_client iface xid) in
    if first then (client ∷ clients, 0, sent) else (clients, failure, [])
