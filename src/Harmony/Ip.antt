-- ===== src/Harmony/Ip.antt =====
-- The layer of harmony/ip.c and the structures of harmony/harmony_net.h. A list that only grows at its
-- head is a list of pointers, and `at` is the interface behind each of them. A packet is the list of
-- its bytes. The processor is little-endian: `htons` and `htonl` swap.
pub mod Routing
pub mod Packets
pub mod Exchange
use limitless_os.Prelude.{
  ℕ, zero, suc, ◌+◌, ◌-◌, ◌*◌, ◌/◌, ◌%◌, ◌^◌, Bool, true, false, not, ◌&&◌, ◌||◌, Option, none,
  some, List, [], ◌∷◌, ◌++◌, length, take, drop, get_or, bit_and, bit_or, update, ltb, leb, ◌==◌,
  if◌then◌else◌,
}
use limitless_os.Temporal.Quantum.{word32, word64}
use limitless_os.Harmony.Checksum.{ip_checksum}

pub record Interface : Type 0 where
  pub name : List ℕ
  pub index : ℕ
  pub mac_addr : List ℕ
  pub ipv4_addr : ℕ
  pub ipv4_netmask : ℕ
  pub ipv4_broadcast : ℕ
  pub mtu : ℕ
  pub rx_packets : ℕ
  pub tx_packets : ℕ
  pub rx_bytes : ℕ
  pub tx_bytes : ℕ
  pub rx_errors : ℕ

pub record Route : Type 0 where
  pub dest : ℕ
  pub netmask : ℕ
  pub gateway : ℕ
  pub interface : ℕ
  pub metric : ℕ
  pub flags : ℕ

pub record Network : Type 0 where
  pub interfaces : List ℕ
  pub at : ℕ → Interface
  pub routing_table : List Route
  pub ip_id_counter : ℕ
  pub next_index : ℕ

-- `-1` as an int.
abbrev pub failure : ℕ
failure = word32 - 1

abbrev pub route_matches : ℕ → Route → Bool
route_matches dest_addr r = bit_and dest_addr r.netmask == bit_and r.dest r.netmask

unfoldable pub lookup_loop : ℕ → List Route → Option Route → ℕ → Option Route
lookup_loop dest_addr [] best_route best_mask = best_route
lookup_loop dest_addr (r ∷ rest) best_route best_mask =
    let better = route_matches dest_addr r && leb best_mask r.netmask in
    lookup_loop dest_addr rest (if better then some r else best_route)
      (if better then r.netmask else best_mask)

unfoldable pub best_route : Network → ℕ → Option Route
best_route net dest_addr = lookup_loop dest_addr net.routing_table none 0

abbrev pub interface_of : Option Route → Option ℕ
interface_of none = none
interface_of (some r) = some r.interface

unfoldable pub ip_route_lookup : Network → ℕ → Option ℕ
ip_route_lookup net dest_addr = interface_of (best_route net dest_addr)

-- `allocated` says whether `flux_allocate` finds memory.
unfoldable pub ip_add_route : Network → Bool → ℕ → ℕ → ℕ → ℕ → Network × ℕ
ip_add_route net allocated dest netmask gateway iface =
    let route : Route = record {
      dest = dest;
      netmask = netmask;
      gateway = gateway;
      interface = iface;
      metric = 1;
      flags = 0;
    } in
    if allocated
    then (record net { routing_table = route ∷ net.routing_table }, 0)
    else (net, failure)

-- A new interface at the address `iface`, which `flux_allocate` returns.
unfoldable pub ip_add_interface : Network → Option ℕ → List ℕ → Network × Option ℕ
ip_add_interface net none name = (net, none)
ip_add_interface net (some iface) name = (
  record net {
    interfaces = iface ∷ net.interfaces;
    at = update net.at iface (record {
      name = take 15 name;
      index = net.next_index;
      mac_addr = 0 ∷ 0 ∷ 0 ∷ 0 ∷ 0 ∷ 0 ∷ [];
      ipv4_addr = 0;
      ipv4_netmask = 0;
      ipv4_broadcast = 0;
      mtu = 1500;
      rx_packets = 0;
      tx_packets = 0;
      rx_bytes = 0;
      tx_bytes = 0;
      rx_errors = 0;
    });
    next_index = (net.next_index + 1) % word32;
  },
  some iface,
)

-- `arp_send_announcement` is called last and is not part of the network's state.
unfoldable pub ip_configure_interface : Network → Bool → ℕ → ℕ → ℕ → Network
ip_configure_interface net allocated iface ipv4_addr netmask =
    let configured = record net {
      at = update net.at iface (record (net.at iface) {
        ipv4_addr = ipv4_addr;
        ipv4_netmask = netmask;
        ipv4_broadcast = bit_or ipv4_addr (word32 - 1 - netmask);
      });
    } in
    (ip_add_route configured allocated (bit_and ipv4_addr netmask) netmask 0 iface).0

-- `ntohs` and `ntohl` of the bytes from a place on, and a 16-bit word as the processor reads it.
abbrev pub be16 : List ℕ → ℕ → ℕ
be16 bytes i = get_or bytes i 0 * 256 + get_or bytes (i + 1) 0

abbrev pub be32 : List ℕ → ℕ → ℕ
be32 bytes i = be16 bytes i * 65536 + be16 bytes (i + 2)

abbrev pub le16 : List ℕ → ℕ → ℕ
le16 bytes i = get_or bytes i 0 + 256 * get_or bytes (i + 1) 0

-- The fields of `ipv4_header_t` as the code uses them: the checksum as it stands in memory, the others
-- after `ntohs` and `ntohl`.
pub record Ipv4Header : Type 0 where
  pub version_ihl : ℕ
  pub tos : ℕ
  pub total_length : ℕ
  pub id : ℕ
  pub flags_frag_offset : ℕ
  pub ttl : ℕ
  pub protocol : ℕ
  pub checksum : ℕ
  pub src_addr : ℕ
  pub dest_addr : ℕ

abbrev pub read_ipv4 : List ℕ → Ipv4Header
read_ipv4 packet = record {
  version_ihl = get_or packet 0 0;
  tos = get_or packet 1 0;
  total_length = be16 packet 2;
  id = be16 packet 4;
  flags_frag_offset = be16 packet 6;
  ttl = get_or packet 8 0;
  protocol = get_or packet 9 0;
  checksum = le16 packet 10;
  src_addr = be32 packet 12;
  dest_addr = be32 packet 16;
}

-- The bytes of a header, each field cut to its type.
abbrev pub ipv4_bytes : Ipv4Header → List ℕ
ipv4_bytes h =
    h.version_ihl % 256
    ∷ h.tos % 256
    ∷ h.total_length / 256 % 256
    ∷ h.total_length % 256
    ∷ h.id / 256 % 256
    ∷ h.id % 256
    ∷ h.flags_frag_offset / 256 % 256
    ∷ h.flags_frag_offset % 256
    ∷ h.ttl % 256
    ∷ h.protocol % 256
    ∷ h.checksum % 256
    ∷ h.checksum / 256 % 256
    ∷ h.src_addr / 16777216 % 256
    ∷ h.src_addr / 65536 % 256
    ∷ h.src_addr / 256 % 256
    ∷ h.src_addr % 256
    ∷ h.dest_addr / 16777216 % 256
    ∷ h.dest_addr / 65536 % 256
    ∷ h.dest_addr / 256 % 256
    ∷ h.dest_addr % 256
    ∷ []
