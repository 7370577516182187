-- ===== src/Harmony/Ethernet.antt =====
-- harmony/ethernet.c. The multicast list is kept in its order from the head on.
pub mod Frame
pub mod Carried
pub mod Members
mod Tests
use limitless_os.Prelude.{
  ℕ, ◌+◌, ◌-◌, ◌/◌, ◌%◌, ◌^◌, Bool, true, false, not, ◌&&◌, ◌||◌, Option, none, some, List, [], ◌∷◌,
  ◌++◌, length, take, drop, replicate, get_or, ltb, ◌==◌, if◌then◌else◌,
}
use limitless_os.Temporal.Quantum.{word32, word64}
use limitless_os.Harmony.Ip.{Interface, failure, be16}
use limitless_os.Harmony.Arp.{Arp, EthFrame, eth_header}
use limitless_os.Harmony.Arp.Calls.{arp_resolve, arp_queue_packet}

pub record MulticastEntry : Type 0 where
  pub mac_addr : List ℕ
  pub ref_count : ℕ

-- `memcmp` of two addresses of the same length.
unfoldable pub same_bytes : List ℕ → List ℕ → Bool
same_bytes [] [] = true
same_bytes [] (b ∷ bs) = false
same_bytes (a ∷ more) [] = false
same_bytes (a ∷ more) (b ∷ bs) = a == b && same_bytes more bs

unfoldable pub ethernet_is_multicast_member : List MulticastEntry → List ℕ → Bool
ethernet_is_multicast_member [] mac_addr = false
ethernet_is_multicast_member (entry ∷ rest) mac_addr =
    let later = ethernet_is_multicast_member rest mac_addr in
    if same_bytes entry.mac_addr mac_addr then true else later

-- The loop of `ethernet_join_multicast`: the list with its entry counted, if it has one.
abbrev pub below : MulticastEntry → Option (List MulticastEntry) → Option (List MulticastEntry)
below entry none = none
below entry (some list) = some (entry ∷ list)

unfoldable pub join_again : List ℕ → List MulticastEntry → Option (List MulticastEntry)
join_again mac_addr [] = none
join_again mac_addr (entry ∷ rest) =
    let later = join_again mac_addr rest in
    if same_bytes entry.mac_addr mac_addr
    then some (record entry { ref_count = (entry.ref_count + 1) % word32 } ∷ rest)
    else below entry later

abbrev pub join_first :
    Bool → List ℕ → List MulticastEntry → Option (List MulticastEntry) → List MulticastEntry × ℕ
join_first allocated mac_addr list (some joined) = (joined, 0)
join_first allocated mac_addr list none =
    if allocated then (record { mac_addr = mac_addr; ref_count = 1 } ∷ list, 0) else (list, failure)

-- `allocated` says whether `flux_allocate` finds memory.
unfoldable pub ethernet_join_multicast :
    Bool → List ℕ → List MulticastEntry → List MulticastEntry × ℕ
ethernet_join_multicast allocated mac_addr list =
    join_first allocated mac_addr list (join_again mac_addr list)

-- The handlers of a frame, with the payload they get.
pub data Upper : Type 0 where
  no_upper : Upper
  ip_payload : List ℕ → Upper
  arp_payload : List ℕ → Upper
  ip6_payload : List ℕ → Upper

abbrev pub frame_for_us : List MulticastEntry → Interface → List ℕ → Bool
frame_for_us members iface dest =
    if same_bytes dest (replicate 6 255)
    then true
    else if same_bytes dest iface.mac_addr
    then true
    else if get_or dest 0 0 % 2 == 1
    then ethernet_is_multicast_member members dest
    else false

abbrev pub upper : Interface → ℕ → List ℕ → Interface × Upper
upper iface ethertype payload =
    if ethertype == 2048
    then (iface, ip_payload payload)
    else if ethertype == 2054
    then (iface, arp_payload payload)
    else if ethertype == 34525
    then (iface, ip6_payload payload)
    else (record iface { rx_errors = (iface.rx_errors + 1) % word64 }, no_upper)

unfoldable pub ethernet_input : Bool → List MulticastEntry → Interface → List ℕ → Interface × Upper
ethernet_input promiscuous members iface frame =
    if ltb (length frame) 14
    then (iface, no_upper)
    else if not (frame_for_us members iface (take 6 frame)) && not promiscuous
    then (iface, no_upper)
    else upper iface (be16 frame 12) (drop 14 frame)

-- The answers of `flux_allocate` in a call of `ethernet_send`: for the frame, in `arp_resolve`, and in
-- `arp_queue_packet`.
pub record Memory : Type 0 where
  pub frame : Bool
  pub resolve_request : Bool
  pub resolve_packet : Bool
  pub queue_request : Bool
  pub queue_copy : Bool
  pub again_request : Bool
  pub again_packet : Bool

abbrev pub multicast_mac : ℕ → List ℕ
multicast_mac dest_ip =
    1 ∷ 0 ∷ 94 ∷ dest_ip / 65536 % 128 ∷ dest_ip / 256 % 256 ∷ dest_ip % 256 ∷ []

abbrev pub frame_length : ℕ → ℕ
frame_length len = if ltb (14 + len) 60 then 60 else 14 + len

abbrev pub padding : ℕ → List ℕ
padding len = replicate (frame_length len - 14 - len) 0

abbrev pub padded : List ℕ → List ℕ
padded payload = payload ++ padding (length payload)

-- `answer` is what `send_packet` returns.
abbrev pub send_frame :
    (EthFrame → ℕ) → (ℕ → Interface) → ℕ → ℕ → List ℕ → List ℕ → Arp → Arp × ℕ × List EthFrame
send_frame answer at iface ethertype payload dest s =
    let frame : EthFrame =
      (iface, eth_header dest (at iface).mac_addr ethertype ++ padded payload) in
    (s, answer frame, frame ∷ [])

abbrev pub after_frames : List EthFrame → Arp × ℕ × List EthFrame → Arp × ℕ × List EthFrame
after_frames frames r = (r.0, r.1, frames ++ r.2)

abbrev pub send_unicast :
    Memory
    → (EthFrame → ℕ)
    → (ℕ → Interface)
    → ℕ
    → ℕ
    → ℕ
    → ℕ
    → List ℕ
    → Arp
    → Option (List ℕ)
    → Arp × ℕ × List EthFrame
send_unicast memory answer at now iface dest_ip ethertype payload s (some dest_mac) =
    send_frame answer at iface ethertype payload dest_mac s
send_unicast memory answer at now iface dest_ip ethertype payload s none =
    arp_queue_packet memory.queue_request memory.queue_copy memory.again_request memory.again_packet
      answer at now iface dest_ip ethertype payload s

unfoldable pub ethernet_send :
    Memory
    → (EthFrame → ℕ)
    → (ℕ → Interface)
    → ℕ
    → ℕ
    → ℕ
    → ℕ
    → List ℕ
    → Arp
    → Arp × ℕ × List EthFrame
ethernet_send memory answer at now iface dest_ip ethertype payload s =
    let resolution =
      arp_resolve memory.resolve_request memory.resolve_packet answer at now iface dest_ip s in
    if ltb 1500 (length payload) || not memory.frame
    then (s, failure, [])
    else if dest_ip == 4294967295
    then send_frame answer at iface ethertype payload (replicate 6 255) s
    else if dest_ip / 2 ^ 28 == 14
    then send_frame answer at iface ethertype payload (multicast_mac dest_ip) s
    else after_frames resolution.2 (
        send_unicast memory answer at now iface dest_ip ethertype payload resolution.0 resolution.1)
