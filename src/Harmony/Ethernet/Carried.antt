-- ===== src/Harmony/Ethernet/Carried.antt =====
-- A frame of harmony/ethernet.c from one interface to another, and a packet of harmony/ip.c in it.
use limitless_os.Prelude.{ℕ, ◌/◌, ◌^◌, Option, some, List, ◌++◌, replicate, ◌==◌, if◌then◌else◌}
use limitless_os.Harmony.Ip.{Interface}
use limitless_os.Harmony.Arp.{Arp, EthFrame, arp_hash, eth_header, resolve_chain}
use limitless_os.Harmony.Ethernet.{multicast_mac, padded}

-- The address that a packet for `dest_ip` goes to, where it has one.
abbrev pub destination_mac : ℕ → ℕ → Arp → Option (List ℕ)
destination_mac now dest_ip s =
    if dest_ip == 4294967295
    then some (replicate 6 255)
    else if dest_ip / 2 ^ 28 == 14
    then some (multicast_mac dest_ip)
    else (resolve_chain now dest_ip (s.cache (arp_hash dest_ip))).1

abbrev pub frame_of : (ℕ → Interface) → ℕ → ℕ → List ℕ → List ℕ → EthFrame
frame_of at iface ethertype payload mac =
    (iface, eth_header mac (at iface).mac_addr ethertype ++ padded payload)
