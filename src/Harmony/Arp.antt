-- ===== src/Harmony/Arp.antt =====
-- The cache and the pending requests of harmony/arp.c. A chain or a list is kept in its order from the
-- head on. `harmony_get_time` gives one reading `now` in a call, and each answer of `flux_allocate` is
-- whether it finds memory. The frames of a call are those it hands to `send_packet`, in that order, each
-- with its interface.
pub mod Calls
pub mod Cache
pub mod Waiting
use limitless_os.Prelude.{
  ℕ, zero, suc, ◌+◌, ◌-◌, ◌*◌, ◌/◌, ◌%◌, Bool, true, false, not, ◌&&◌, ◌||◌, Option, none, some,
  List, [], ◌∷◌, ◌++◌, length, take, drop, replicate, get_or, bit_xor, update, ltb, leb, ◌==◌,
  if◌then◌else◌,
}
use limitless_os.Temporal.Quantum.{word32, word64}
use limitless_os.Harmony.Ip.{Interface, failure, be16, be32}

pub record Entry : Type 0 where
  pub ip_addr : ℕ
  pub mac_addr : List ℕ
  pub timestamp : ℕ
  pub valid : Bool

pub record Queued : Type 0 where
  pub ethertype : ℕ
  pub packet : List ℕ

pub record Pending : Type 0 where
  pub ip_addr : ℕ
  pub interface : ℕ
  pub timestamp : ℕ
  pub retries : ℕ
  pub packet_queue : List Queued

pub record Arp : Type 0 where
  pub cache : ℕ → List Entry
  pub pending : List Pending

abbrev pub EthFrame : Type 0
EthFrame = ℕ × List ℕ

abbrev pub arp_hash : ℕ → ℕ
arp_hash ip_addr = bit_xor ip_addr (ip_addr / 65536) % 256

-- `now - timestamp`
abbrev pub age : ℕ → ℕ → ℕ
age now timestamp = (now + word64 - timestamp) % word64

abbrev pub cache_timeout : ℕ
cache_timeout = 300000000

abbrev pub request_timeout : ℕ
request_timeout = 1000000

abbrev pub eth_header : List ℕ → List ℕ → ℕ → List ℕ
eth_header dest src ethertype =
    take 6 dest ++ take 6 src ++ ethertype / 256 % 256 ∷ ethertype % 256 ∷ []

-- The frames of a queue, and the answers of `flux_allocate` from the next on.
unfoldable pub queue_frames :
    (ℕ → Bool) → (ℕ → Interface) → ℕ → List ℕ → List Queued → List EthFrame
queue_frames allocated at iface mac_addr [] = []
queue_frames allocated at iface mac_addr (q ∷ rest) =
    let frame : EthFrame =
      (iface, eth_header mac_addr (at iface).mac_addr q.ethertype ++ q.packet) in
    let more = queue_frames (λ k. allocated (k + 1)) at iface mac_addr rest in
    if allocated 0 then frame ∷ more else more

unfoldable pub arp_process_pending :
    (ℕ → Bool) → (ℕ → Interface) → ℕ → List ℕ → List Pending → List Pending × List EthFrame
arp_process_pending allocated at ip_addr mac_addr [] = ([], [])
arp_process_pending allocated at ip_addr mac_addr (p ∷ rest) =
    let later = arp_process_pending allocated at ip_addr mac_addr rest in
    if p.ip_addr == ip_addr
    then (rest, queue_frames allocated at p.interface mac_addr p.packet_queue)
    else (p ∷ later.0, later.1)

-- The first loop of `arp_add_entry`: the chain with its entry renewed, if it has one.
abbrev pub onto : Entry → Option (List Entry) → Option (List Entry)
onto e none = none
onto e (some chain) = some (e ∷ chain)

unfoldable pub renew : ℕ → ℕ → List ℕ → List Entry → Option (List Entry)
renew now ip_addr mac_addr [] = none
renew now ip_addr mac_addr (e ∷ rest) =
    let later = renew now ip_addr mac_addr rest in
    if e.ip_addr == ip_addr
    then some (record e { mac_addr = mac_addr; timestamp = now; valid = true } ∷ rest)
    else onto e later

abbrev pub new_entry : ℕ → ℕ → List ℕ → Entry
new_entry now ip_addr mac_addr = record {
  ip_addr = ip_addr;
  mac_addr = mac_addr;
  timestamp = now;
  valid = true;
}

-- The chain after the call: renewed, or with a new entry, or none without memory.
abbrev pub stored : Bool → ℕ → ℕ → List ℕ → List Entry → Option (List Entry) → Option (List Entry)
stored allocated now ip_addr mac_addr chain (some renewed) = some renewed
stored allocated now ip_addr mac_addr chain none =
    if allocated then some (new_entry now ip_addr mac_addr ∷ chain) else none

unfoldable pub store_chain :
    (ℕ → Bool) → (ℕ → Interface) → ℕ → List ℕ → Arp → Option (List Entry) → Arp × ℕ × List EthFrame
store_chain frame_memory at ip_addr mac_addr s none = (s, failure, [])
store_chain frame_memory at ip_addr mac_addr s (some chain) =
    let (pending, frames) = arp_process_pending frame_memory at ip_addr mac_addr s.pending in
    (record { cache = update s.cache (arp_hash ip_addr) chain; pending = pending }, 0, frames)

unfoldable pub arp_add_entry :
    Bool → (ℕ → Bool) → (ℕ → Interface) → ℕ → ℕ → List ℕ → Arp → Arp × ℕ × List EthFrame
arp_add_entry allocated frame_memory at now ip_addr mac_addr s =
    let chain = s.cache (arp_hash ip_addr) in
    store_chain frame_memory at ip_addr mac_addr s
      (stored allocated now ip_addr mac_addr chain (renew now ip_addr mac_addr chain))

-- The loop of `arp_resolve`: the chain, with expired entries marked, and the address found.
unfoldable pub resolve_chain : ℕ → ℕ → List Entry → List Entry × Option (List ℕ)
resolve_chain now ip_addr [] = ([], none)
resolve_chain now ip_addr (e ∷ rest) =
    let (later, found) = resolve_chain now ip_addr rest in
    if e.ip_addr == ip_addr && e.valid
    then (if ltb (age now e.timestamp) cache_timeout
        then (e ∷ rest, some e.mac_addr)
        else (record e { valid = false } ∷ later, found))
    else (e ∷ later, found)

-- The search of `arp_send_request`: it goes on to send, or stops with a result.
pub data Search : Type 0 where
  fresh : Search
  exhausted : List Pending → Search
  retry : List Pending → Search
  missing : Search

abbrev pub behind : Pending → Search → Search
behind p (retry rest) = retry (p ∷ rest)
behind p (exhausted rest) = exhausted (p ∷ rest)
behind p s = s

unfoldable pub find_request : ℕ → ℕ → ℕ → List Pending → Search
find_request now iface target_ip [] = missing
find_request now iface target_ip (p ∷ rest) =
    let later = find_request now iface target_ip rest in
    let retries = (p.retries + 1) % word32 in
    if p.ip_addr == target_ip && p.interface == iface
    then (if ltb (age now p.timestamp) request_timeout
        then fresh
        else if leb 3 retries
        then exhausted (record p { retries = retries } ∷ rest)
        else retry (record p { retries = retries; timestamp = now } ∷ rest))
    else behind p later
