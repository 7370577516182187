-- ===== src/Harmony/Hosts.antt =====
-- Two hosts, 10.0.0.1 and 10.0.0.2, on one network, for the concrete instances.
use limitless_os.Prelude.{ℕ, ◌%◌, false, List, [], ◌∷◌}
use limitless_os.Harmony.Ip.{Interface, Route, Network}
use limitless_os.Harmony.Ip.Packets.{Policy, ip_packet}
use limitless_os.Harmony.Arp.{Arp, new_entry}

abbrev pub host : ℕ → Interface
host addr = record {
  name = [];
  index = 1;
  mac_addr = 2 ∷ 0 ∷ 0 ∷ 0 ∷ 0 ∷ addr % 256 ∷ [];
  ipv4_addr = addr;
  ipv4_netmask = 4294967040;
  ipv4_broadcast = 167772415;
  mtu = 1500;
  rx_packets = 0;
  tx_packets = 0;
  rx_bytes = 0;
  tx_bytes = 0;
  rx_errors = 0;
}

abbrev pub local_route : Route
local_route = record {
  dest = 167772160;
  netmask = 4294967040;
  gateway = 0;
  interface = 1;
  metric = 1;
  flags = 0;
}

abbrev pub network : ℕ → Network
network addr = record {
  interfaces = 1 ∷ [];
  at = λ p. host addr;
  routing_table = local_route ∷ [];
  ip_id_counter = 1;
  next_index = 2;
}

abbrev pub receiver_addr : ℕ
receiver_addr = 167772162

abbrev pub policy : Policy
policy = record { is_multicast_member = λ a. false; forwarding_enabled = false }

abbrev pub sent_packet : List ℕ
sent_packet = ip_packet 1 17 167772161 167772162 (1 ∷ 2 ∷ 3 ∷ [])

abbrev pub dest_mac : List ℕ
dest_mac = 2 ∷ 0 ∷ 0 ∷ 0 ∷ 0 ∷ 9 ∷ []

abbrev pub full : Arp
full = record { cache = λ h. new_entry 10 receiver_addr dest_mac ∷ []; pending = [] }
