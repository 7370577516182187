-- ===== src/Harmony/Ip/Packets.antt =====
-- `ip_input`, `ip4_input` and `ip_send` of harmony/ip.c.
use limitless_os.Prelude.{
  ℕ, ◌+◌, ◌-◌, ◌*◌, ◌/◌, ◌%◌, ◌^◌, Bool, true, false, not, ◌||◌, Option, none, some, List, [], ◌∷◌,
  ◌++◌, length, take, drop, get_or, update, ltb, ◌==◌, if◌then◌else◌,
}
use limitless_os.Temporal.Quantum.{word64}
use limitless_os.Harmony.Checksum.{ip_checksum}
use limitless_os.Harmony.Ip.{
  Interface, Network, Ipv4Header, read_ipv4, ipv4_bytes, failure, ip_route_lookup,
}

-- The handlers of received packets, none of which is called where a packet is dropped. `tcp_input` and
-- `udp_input` get the bytes of the payload and the length of the data behind the transport header.
pub data Handler : Type 0 where
  no_handler : Handler
  ip_forward : ℕ → Handler
  to_icmp : List ℕ → Handler
  to_tcp : List ℕ → ℕ → Handler
  to_udp : List ℕ → ℕ → Handler
  protocol_unreachable : Handler
  ip6_input : Handler

-- What other files decide.
pub record Policy : Type 0 where
  pub is_multicast_member : ℕ → Bool
  pub forwarding_enabled : Bool

abbrev pub has_address : (ℕ → Interface) → List ℕ → ℕ → Bool
has_address at [] dest_addr = false
has_address at (iface ∷ rest) dest_addr =
    (at iface).ipv4_addr == dest_addr || has_address at rest dest_addr

abbrev pub for_us : Policy → Network → ℕ → Bool
for_us policy net dest_addr =
    if dest_addr == 4294967295
    then true
    else if dest_addr / 2 ^ 28 == 14
    then policy.is_multicast_member dest_addr
    else has_address net.at net.interfaces dest_addr

-- The header's checksum bytes are set to 0 for the sum.
abbrev pub checksum_holds : List ℕ → ℕ → ℕ → Bool
checksum_holds packet header_len checksum =
    ip_checksum (take header_len (take 10 packet ++ 0 ∷ 0 ∷ drop 12 packet)) == checksum

-- `size_t` subtraction.
abbrev pub dispatch : ℕ → List ℕ → Handler
dispatch protocol payload =
    let payload_len = length payload in
    if protocol == 1
    then to_icmp payload
    else if protocol == 6
    then to_tcp payload ((payload_len + word64 - 20) % word64)
    else if protocol == 17
    then to_udp payload ((payload_len + word64 - 8) % word64)
    else protocol_unreachable

abbrev pub count_received : Network → ℕ → ℕ → Network
count_received net iface len = record net {
  at = update net.at iface (record (net.at iface) {
    rx_packets = ((net.at iface).rx_packets + 1) % word64;
    rx_bytes = ((net.at iface).rx_bytes + len) % word64;
  });
}

unfoldable pub ip4_input : Policy → Network → ℕ → List ℕ → Network × Handler
ip4_input policy net iface packet =
    let len = length packet in
    let ip_hdr = read_ipv4 packet in
    let ihl = ip_hdr.version_ihl % 16 in
    let header_len = ihl * 4 in
    let total_len = ip_hdr.total_length in
    if ltb ihl 5
    then (net, no_handler)
    else if ltb len total_len || ltb total_len header_len
    then (net, no_handler)
    else if not (checksum_holds packet header_len ip_hdr.checksum)
    then (net, no_handler)
    else if not (for_us policy net ip_hdr.dest_addr)
    then (net, if policy.forwarding_enabled then ip_forward total_len else no_handler)
    else (
      count_received net iface len,
      dispatch ip_hdr.protocol (take (total_len - header_len) (drop header_len packet)),
    )

unfoldable pub ip_input : Policy → Network → ℕ → List ℕ → Network × Handler
ip_input policy net iface packet =
    let version = get_or packet 0 0 / 16 % 16 in
    if ltb (length packet) 20
    then (net, no_handler)
    else if version == 4
    then ip4_input policy net iface packet
    else if version == 6
    then (net, ip6_input)
    else (net, no_handler)

-- What a call of `ip_send` hands on: nothing, the data to `ip_fragment_and_send`, or a packet to
-- `ethernet_send`.
pub data Output : Type 0 where
  nothing : Output
  fragments : ℕ → ℕ → Output
  packet : ℕ → ℕ → List ℕ → Output

abbrev pub ip_header : ℕ → ℕ → ℕ → ℕ → ℕ → ℕ → Ipv4Header
ip_header total_length id protocol src_addr dest_addr checksum = record {
  version_ihl = 69;
  tos = 0;
  total_length = total_length;
  id = id;
  flags_frag_offset = 16384;
  ttl = 64;
  protocol = protocol;
  checksum = checksum;
  src_addr = src_addr;
  dest_addr = dest_addr;
}

-- The header with its checksum, and the data.
abbrev pub ip_packet : ℕ → ℕ → ℕ → ℕ → List ℕ → List ℕ
ip_packet id protocol src_addr dest_addr payload =
    let header = ip_header (20 + length payload) id protocol src_addr dest_addr in
    ipv4_bytes (header (ip_checksum (ipv4_bytes (header 0)))) ++ payload

abbrev pub transmitted : Network → ℕ → ℕ → Network
transmitted net iface packet_len = record net {
  at = update net.at iface (record (net.at iface) {
    tx_packets = ((net.at iface).tx_packets + 1) % word64;
    tx_bytes = ((net.at iface).tx_bytes + packet_len) % word64;
  });
}

-- `allocated` says whether `flux_allocate` finds memory, and `answer` is what `ip_fragment_and_send`
-- or `ethernet_send` returns for its output.
unfoldable pub send_via :
    Network → Bool → (Output → ℕ) → ℕ → ℕ → ℕ → ℕ → List ℕ → Network × ℕ × Output
send_via net allocated answer iface src dest_addr protocol payload =
    let src_addr = if src == 0 then (net.at iface).ipv4_addr else src in
    let output =
      packet iface dest_addr (ip_packet net.ip_id_counter protocol src_addr dest_addr payload) in
    let counted = record net { ip_id_counter = (net.ip_id_counter + 1) % 65536 } in
    if ltb (net.at iface).mtu (length payload + 20)
    then (net, answer (fragments iface src_addr), fragments iface src_addr)
    else if not allocated
    then (net, failure, nothing)
    else (
      if answer output == 0 then transmitted counted iface (20 + length payload) else counted,
      answer output,
      output,
    )

unfoldable pub send_routed :
    Network → Bool → (Output → ℕ) → ℕ → ℕ → ℕ → List ℕ → Option ℕ → Network × ℕ × Output
send_routed net allocated answer src dest_addr protocol payload none = (net, failure, nothing)
send_routed net allocated answer src dest_addr protocol payload (some iface) =
    send_via net allocated answer iface src dest_addr protocol payload

unfoldable pub ip_send : Network → Bool → (Output → ℕ) → ℕ → ℕ → ℕ → List ℕ → Network × ℕ × Output
ip_send net allocated answer src dest_addr protocol payload =
    send_routed net allocated answer src dest_addr protocol payload (ip_route_lookup net dest_addr)
