-- ===== src/Harmony/Ethernet/Tests.antt =====
-- Frames from 10.0.0.1 to 10.0.0.2.
use limitless_os.Prelude.{◌≡◌, ◌⊎◌, true, []}
use limitless_os.Harmony.Ip.{failure, Network, Interface}
use limitless_os.Harmony.Hosts.{host, network, receiver_addr, dest_mac}
use limitless_os.Harmony.Ethernet.{Memory, ethernet_join_multicast}
use limitless_os.Harmony.Ethernet.Members.{Joined, ethernet_join_multicast_lem}

abbrev memory : Memory
memory = record {
  frame = true;
  resolve_request = true;
  resolve_packet = true;
  queue_request = true;
  queue_copy = true;
  again_request = true;
  again_packet = true;
}

-- The host whose interface has the address in the cache of the other.
abbrev neighbour : Interface
neighbour = let h = host receiver_addr in record h { mac_addr = dest_mac }

abbrev neighbours : Network
neighbours = let n = network receiver_addr in record n { at = λ p. neighbour }

ethernet_join_multicast_lem_example :
    (((ethernet_join_multicast true dest_mac []).1 ≡ 0)
      × Joined dest_mac [] (ethernet_join_multicast true dest_mac []).0)
    ⊎ (ethernet_join_multicast true dest_mac [] ≡ ([], failure))
ethernet_join_multicast_lem_example = ethernet_join_multicast_lem true dest_mac []
