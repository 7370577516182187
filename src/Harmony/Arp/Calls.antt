-- ===== src/Harmony/Arp/Calls.antt =====
-- The calls of harmony/arp.c that send: `arp_send_request`, `arp_resolve`, `arp_queue_packet`,
-- `arp_send_reply`, `arp_input`; and `arp_timer_tick`, `arp_init`, `arp_cleanup`.
use limitless_os.Prelude.{
  ℕ, ◌*◌, ◌/◌, ◌%◌, Bool, not, ◌&&◌, ◌||◌, Option, none, some, List, [], ◌∷◌, ◌++◌, length, take,
  drop, replicate, get_or, update, ltb, ◌==◌, if◌then◌else◌,
}
use limitless_os.Harmony.Ip.{Interface, failure, be16, be32}
use limitless_os.Harmony.Arp.{
  Entry, Queued, Pending, Arp, EthFrame, arp_hash, age, cache_timeout, request_timeout, eth_header,
  arp_add_entry, resolve_chain, Search, fresh, exhausted, retry, missing, find_request,
}

abbrev pub be32_bytes : ℕ → List ℕ
be32_bytes n = n / 16777216 % 256 ∷ n / 65536 % 256 ∷ n / 256 % 256 ∷ n % 256 ∷ []

-- A packet of `eth_header_t` and `arp_header_t`.
abbrev pub arp_packet : List ℕ → ℕ → List ℕ → ℕ → List ℕ → ℕ → List ℕ
arp_packet dest operation sender_mac sender_ip target_mac target_ip =
    eth_header dest sender_mac 2054
    ++ 0 ∷ 1 ∷ 8 ∷ 0 ∷ 6 ∷ 4 ∷ 0 ∷ operation ∷ take 6 sender_mac
    ++ be32_bytes sender_ip
    ++ take 6 target_mac
    ++ be32_bytes target_ip

abbrev pub new_request : ℕ → ℕ → ℕ → Pending
new_request now iface target_ip = record {
  ip_addr = target_ip;
  interface = iface;
  timestamp = now;
  retries = 0;
  packet_queue = [];
}

-- `answer` is what `send_packet` returns; the two answers of `flux_allocate` are for the request and for
-- the packet.
abbrev pub send_request_packet :
    Bool → (EthFrame → ℕ) → (ℕ → Interface) → ℕ → ℕ → Arp → Arp × ℕ × List EthFrame
send_request_packet allocated answer at iface target_ip s =
    let broadcast = replicate 6 255 in
    let mac = (at iface).mac_addr in
    let frame : EthFrame =
      (iface, arp_packet broadcast 1 mac (at iface).ipv4_addr (replicate 6 0) target_ip) in
    if allocated then (s, answer frame, frame ∷ []) else (s, failure, [])

unfoldable pub request_found :
    Bool
    → Bool
    → (EthFrame → ℕ)
    → (ℕ → Interface)
    → ℕ
    → ℕ
    → ℕ
    → Arp
    → Search
    → Arp × ℕ × List EthFrame
request_found first second answer at now iface target_ip s fresh = (s, 0, [])
request_found first second answer at now iface target_ip s (exhausted list) =
    (record s { pending = list }, failure, [])
request_found first second answer at now iface target_ip s (retry list) =
    send_request_packet second answer at iface target_ip (record s { pending = list })
request_found first second answer at now iface target_ip s missing =
    if first
    then send_request_packet second answer at iface target_ip
        (record s { pending = new_request now iface target_ip ∷ s.pending })
    else (s, failure, [])

unfoldable pub arp_send_request :
    Bool → Bool → (EthFrame → ℕ) → (ℕ → Interface) → ℕ → ℕ → ℕ → Arp → Arp × ℕ × List EthFrame
arp_send_request first second answer at now iface target_ip s =
    request_found first second answer at now iface target_ip s
      (find_request now iface target_ip s.pending)

-- Where the loop finds an address no request is sent.
unfoldable pub resolved :
    Bool
    → Bool
    → (EthFrame → ℕ)
    → (ℕ → Interface)
    → ℕ
    → ℕ
    → ℕ
    → Arp
    → Option (List ℕ)
    → Arp × Option (List ℕ) × List EthFrame
resolved first second answer at now iface ip_addr s (some mac) = (s, some mac, [])
resolved first second answer at now iface ip_addr s none =
    let (t, result, frames) = arp_send_request first second answer at now iface ip_addr s in
    (t, none, frames)

unfoldable pub arp_resolve :
    Bool
    → Bool
    → (EthFrame → ℕ)
    → (ℕ → Interface)
    → ℕ
    → ℕ
    → ℕ
    → Arp
    → Arp × Option (List ℕ) × List EthFrame
arp_resolve first second answer at now iface ip_addr s =
    let (chain, found) = resolve_chain now ip_addr (s.cache (arp_hash ip_addr)) in
    resolved first second answer at now iface ip_addr
      (record s { cache = update s.cache (arp_hash ip_addr) chain }) found

abbrev pub past : Pending → Option (List Pending) → Option (List Pending)
past p none = none
past p (some list) = some (p ∷ list)

-- The pending request of a packet, the first that fits, gets it at the head of its queue.
unfoldable pub enqueue : ℕ → ℕ → Queued → List Pending → Option (List Pending)
enqueue iface dest_ip q [] = none
enqueue iface dest_ip q (p ∷ rest) =
    let later = enqueue iface dest_ip q rest in
    if p.ip_addr == dest_ip && p.interface == iface
    then some (record p { packet_queue = q ∷ p.packet_queue } ∷ rest)
    else past p later

-- The packet is queued, and the request sent again if it is time.
abbrev pub request_for :
    Bool → Bool → (EthFrame → ℕ) → (ℕ → Interface) → ℕ → ℕ → ℕ → Arp → Arp × ℕ × List EthFrame
request_for first second answer at now iface dest_ip s =
    let sent = arp_send_request first second answer at now iface dest_ip s in (sent.0, 0, sent.2)

-- The two answers of `flux_allocate` before those of `arp_send_request` are for the request and for the
-- copy of the packet. The list with the packet is given where a request was found.
unfoldable pub queue_found :
    Bool
    → Bool
    → Bool
    → Bool
    → (EthFrame → ℕ)
    → (ℕ → Interface)
    → ℕ
    → ℕ
    → ℕ
    → Queued
    → Arp
    → Option (List Pending)
    → Arp × ℕ × List EthFrame
queue_found request copy first second answer at now iface dest_ip q s (some list) =
    if copy
    then request_for first second answer at now iface dest_ip (record s { pending = list })
    else (s, failure, [])
queue_found request copy first second answer at now iface dest_ip q s none =
    let created = new_request now iface dest_ip in
    let queued : Pending = record created { packet_queue = q ∷ [] } in
    if not request
    then (s, failure, [])
    else if not copy
    then (record s { pending = created ∷ s.pending }, failure, [])
    else request_for first second answer at now iface dest_ip
        (record s { pending = queued ∷ s.pending })

unfoldable pub arp_queue_packet :
    Bool
    → Bool
    → Bool
    → Bool
    → (EthFrame → ℕ)
    → (ℕ → Interface)
    → ℕ
    → ℕ
    → ℕ
    → ℕ
    → List ℕ
    → Arp
    → Arp × ℕ × List EthFrame
arp_queue_packet request copy first second answer at now iface dest_ip ethertype packet s =
    let q : Queued = record { ethertype = ethertype; packet = packet } in
    queue_found request copy first second answer at now iface dest_ip q s
      (enqueue iface dest_ip q s.pending)

-- The reply to the request whose bytes these are.
unfoldable pub arp_send_reply :
    Bool → (EthFrame → ℕ) → (ℕ → Interface) → ℕ → List ℕ → ℕ × List EthFrame
arp_send_reply allocated answer at iface request =
    let sender = take 6 (drop 8 request) in
    let frame : EthFrame =
      (iface, arp_packet sender 2 (at iface).mac_addr (be32 request 24) sender (be32 request 14)) in
    if allocated then (answer frame, frame ∷ []) else (failure, [])

abbrev pub is_ipv4_arp : List ℕ → Bool
is_ipv4_arp header =
    be16 header 0 == 1 && be16 header 2 == 2048 && get_or header 4 0 == 6 && get_or header 5 0 == 4

unfoldable pub arp_input :
    Bool
    → Bool
    → (ℕ → Bool)
    → (EthFrame → ℕ)
    → (ℕ → Interface)
    → ℕ
    → ℕ
    → List ℕ
    → Arp
    → Arp × List EthFrame
arp_input first second frame_memory answer at now iface header s =
    let learnt =
      arp_add_entry first frame_memory at now (be32 header 14) (take 6 (drop 8 header)) s in
    let reply = arp_send_reply second answer at iface header in
    if ltb (length header) 28 || not (is_ipv4_arp header)
    then (s, [])
    else if be32 header 24 == (at iface).ipv4_addr && be16 header 6 == 1
    then (learnt.0, learnt.2 ++ reply.1)
    else (learnt.0, learnt.2)

-- The loops of `arp_timer_tick`.
unfoldable pub keep_entries : ℕ → List Entry → List Entry
keep_entries now [] = []
keep_entries now (e ∷ rest) =
    let kept = keep_entries now rest in
    if ltb cache_timeout (age now e.timestamp) then kept else e ∷ kept

unfoldable pub keep_pending : ℕ → List Pending → List Pending
keep_pending now [] = []
keep_pending now (p ∷ rest) =
    let kept = keep_pending now rest in
    if ltb (request_timeout * 3) (age now p.timestamp) then kept else p ∷ kept

-- A hash is below the 256 chains that the loop goes through.
unfoldable pub arp_timer_tick : ℕ → Arp → Arp
arp_timer_tick now s = record {
  cache = λ hash. keep_entries now (s.cache hash);
  pending = keep_pending now s.pending;
}

-- `arp_init`, and the same after `arp_cleanup` has freed all.
unfoldable pub arp_init : Arp
arp_init = record { cache = λ hash. []; pending = [] }
