-- ===== src/Harmony/Ip/Exchange.antt =====
-- What `ip_send` hands to the driver is accepted by `ip_input`, harmony/ip.c.
use limitless_os.Prelude.{
  ℕ, ◌+◌, ◌-◌, ◌%◌, ◌<◌, ◌≤◌, ◌≡◌, refl, ap, ap₂, ◌∙◌, Bool, true, false, Option, none, some,
  Bool-cases, inl, inr, List, [], ◌++◌, append-nil, sym, length, length-append, take, take-append,
  drop, ltb, ==_refl, ◌==◌, if◌then◌else◌, arith,
}
use limitless_os.Temporal.Quantum.{word32, word64}
use limitless_os.Harmony.Checksum.{complement, ip_checksum}
use limitless_os.Harmony.Ip.{Network, Ipv4Header, read_ipv4, ipv4_bytes, ip_route_lookup}
use limitless_os.Harmony.Ip.Packets.{
  Policy, to_tcp, for_us, checksum_holds, dispatch, count_received, Handler, ip4_input, ip_input,
  Output, packet, ip_header, ip_packet, send_via, send_routed, ip_send,
}

pub ip_checksum_bound : (bytes : List ℕ) → ip_checksum bytes < 65536
unfolding ip_checksum complement
ip_checksum_bound bytes = omega arith

-- A packet whose fields pass the tests is handed on, without what is behind its total length.
ip4_input_accepts :
    (policy : Policy) (net : Network) (iface total : ℕ) (p : List ℕ)
    → (read_ipv4 p).version_ihl ≡ 69
    → (read_ipv4 p).total_length ≡ total
    → 20 ≤ total
    → total ≤ length p
    → checksum_holds p 20 (read_ipv4 p).checksum ≡ true
    → for_us policy net (read_ipv4 p).dest_addr ≡ true
    → ip_input policy net iface p ≡ (
      count_received net iface (length p),
      dispatch (read_ipv4 p).protocol (take (total - 20) (drop 20 p)),
    )
unfolding ip_input ip4_input
ip4_input_accepts policy net iface total p version is_total long inside holds ours =
    rw version (rw is_total (rw short (rw in_packet (rw header (rw holds (rw ours refl))))))
  where
    short : ltb (length p) 20 ≡ false
    short = ground arith

    in_packet : ltb (length p) total ≡ false
    in_packet = ground arith

    header : ltb total 20 ≡ false
    header = ground arith

-- A packet that `ip_send` builds is taken by every host that has its destination, whatever is behind it,
-- and the data go to the handler of the protocol.
pub padded_packet-ip_input :
    (policy : Policy) (net : Network) (iface id protocol src_addr dest_addr : ℕ)
    (payload padding : List ℕ)
    → length payload + 20 < 65536
    → protocol < 256
    → dest_addr < word32
    → for_us policy net dest_addr ≡ true
    → ip_input policy net iface (ip_packet id protocol src_addr dest_addr payload ++ padding)
      ≡ (count_received net iface (20 + length payload + length padding), dispatch protocol payload)
padded_packet-ip_input policy net iface id protocol src_addr dest_addr payload padding fits one_byte
      four_bytes ours =
    ip4_input_accepts policy net iface (20 + length payload) p refl (omega arith) (omega arith)
      (omega (arith, l))
      (ap (λ (c : ℕ). ip_checksum (ipv4_bytes h) == c) (omega (arith, bound))
        ∙ ==_refl (ip_checksum (ipv4_bytes h)))
      (ap (for_us policy net) destination ∙ ours)
    ∙ ap₂ (λ (k proto : ℕ). (count_received net iface k, dispatch proto taken)) l one
    ∙ ap
        (λ (d : List ℕ).
          (count_received net iface (20 + length payload + length padding), dispatch protocol d))
        whole
  where
    p : List ℕ
    p = ip_packet id protocol src_addr dest_addr payload ++ padding

    taken : List ℕ
    taken = take (20 + length payload - 20) (payload ++ padding)

    l : length p ≡ 20 + length payload + length padding
    l = omega (arith, length-append payload padding)

    destination : (read_ipv4 p).dest_addr ≡ dest_addr
    destination = omega (arith, four_bytes)

    one : (read_ipv4 p).protocol ≡ protocol
    one = omega (arith, one_byte)

    h : Ipv4Header
    h = ip_header (20 + length payload) id protocol src_addr dest_addr 0

    bound : ip_checksum (ipv4_bytes h) < 65536
    bound = ip_checksum_bound (ipv4_bytes h)

    whole : taken ≡ payload
    whole = ap (λ (k : ℕ). take k (payload ++ padding)) (omega arith) ∙ take-append payload padding

ip_packet-ip_input :
    (policy : Policy) (net : Network) (iface id protocol src_addr dest_addr : ℕ) (payload : List ℕ)
    → length payload + 20 < 65536
    → protocol < 256
    → dest_addr < word32
    → for_us policy net dest_addr ≡ true
    → ip_input policy net iface (ip_packet id protocol src_addr dest_addr payload)
      ≡ (count_received net iface (20 + length payload), dispatch protocol payload)
ip_packet-ip_input policy net iface id protocol src_addr dest_addr payload fits one_byte four_bytes
      ours =
    ap (ip_input policy net iface) (sym (append-nil p))
    ∙ padded_packet-ip_input policy net iface id protocol src_addr dest_addr payload [] fits
        one_byte four_bytes ours
    ∙ ap (λ (k : ℕ). (count_received net iface k, dispatch protocol payload)) (omega arith)
  where
    p : List ℕ
    p = ip_packet id protocol src_addr dest_addr payload

-- What is known of a packet that `ip_send` hands on.
abbrev pub Built : Network → ℕ → ℕ → List ℕ → ℕ → ℕ → List ℕ → Type 0
Built sender dest_addr protocol payload via to p =
    (to ≡ dest_addr)
    × (ip_route_lookup sender dest_addr ≡ some via)
    × ((id : ℕ) × (src_addr : ℕ) × (p ≡ ip_packet id protocol src_addr dest_addr payload))

send_via-packet :
    (sender : Network) (allocated : Bool) (answer : Output → ℕ) (iface src dest_addr protocol : ℕ)
    (payload : List ℕ) (via to : ℕ) (p : List ℕ)
    → ip_route_lookup sender dest_addr ≡ some iface
    → (send_via sender allocated answer iface src dest_addr protocol payload).2 ≡ packet via to p
    → Built sender dest_addr protocol payload via to p
unfolding send_via
send_via-packet sender true answer iface src dest_addr protocol payload via to p found sent =
    elim (Bool-cases (ltb (sender.at iface).mtu (length payload + 20))) [
      | inl long ↦ ground arith
      | inr short ↦
          let same : packet iface dest_addr (
                ip_packet sender.ip_id_counter protocol
                  (if src == 0 then (sender.at iface).ipv4_addr else src) dest_addr payload)
              ≡ packet via to p =
            ground arith in
          (
            cc same,
            cc (same, found),
            (
              sender.ip_id_counter,
              (if src == 0 then (sender.at iface).ipv4_addr else src),
              cc same,
            ),
          )
    ]
send_via-packet sender false answer iface src dest_addr protocol payload via to p found sent =
    absurd (ground arith)

send_routed-packet :
    (sender : Network) (allocated : Bool) (answer : Output → ℕ) (src dest_addr protocol : ℕ)
    (payload : List ℕ) (via to : ℕ) (p : List ℕ) (route : Option ℕ)
    → ip_route_lookup sender dest_addr ≡ route
    → (send_routed sender allocated answer src dest_addr protocol payload route).2 ≡ packet via to p
    → Built sender dest_addr protocol payload via to p
unfolding send_routed
send_routed-packet sender allocated answer src dest_addr protocol payload via to p none e sent =
    absurd (cc sent)
send_routed-packet sender allocated answer src dest_addr protocol payload via to p (some iface) e
      sent =
    send_via-packet sender allocated answer iface src dest_addr protocol payload via to p e sent

pub ip_send-packet :
    (sender : Network) (allocated : Bool) (answer : Output → ℕ) (src dest_addr protocol : ℕ)
    (payload : List ℕ) (via to : ℕ) (p : List ℕ)
    → (ip_send sender allocated answer src dest_addr protocol payload).2 ≡ packet via to p
    → Built sender dest_addr protocol payload via to p
unfolding ip_send
ip_send-packet sender allocated answer src dest_addr protocol payload via to p sent =
    send_routed-packet sender allocated answer src dest_addr protocol payload via to p _ refl sent

-- Where a packet of less than 65536 bytes is sent without fragments, any host that has its
-- destination takes it and hands the data to the handler of the protocol.
pub ip_send-ip_input :
    (sender : Network) (allocated : Bool) (answer : Output → ℕ) (src dest_addr protocol : ℕ)
    (payload : List ℕ) (via to : ℕ) (p : List ℕ) (policy : Policy) (receiver : Network) (iface : ℕ)
    → length payload + 20 < 65536
    → protocol < 256
    → dest_addr < word32
    → (ip_send sender allocated answer src dest_addr protocol payload).2 ≡ packet via to p
    → for_us policy receiver dest_addr ≡ true
    → (to ≡ dest_addr)
      × (ip_route_lookup sender dest_addr ≡ some via)
      × (ip_input policy receiver iface p
          ≡ (count_received receiver iface (20 + length payload), dispatch protocol payload))
ip_send-ip_input sender allocated answer src dest_addr protocol payload via to p policy receiver
      iface fits one_byte four_bytes sent ours =
    let (at, found, (id, src_addr, e)) =
      ip_send-packet sender allocated answer src dest_addr protocol payload via to p sent in
    (
      at,
      found,
      rw e (
          ip_packet-ip_input policy receiver iface id protocol src_addr dest_addr payload fits
            one_byte four_bytes ours),
    )

-- A TCP packet whose payload is shorter than a TCP header is handed on all the same, and the length of
-- its data wraps.
pub short_segment_wraps :
    (policy : Policy) (net : Network) (iface id src_addr dest_addr : ℕ) (payload : List ℕ)
    → length payload < 20
    → dest_addr < word32
    → for_us policy net dest_addr ≡ true
    → (data_len : ℕ) × ((ip_input policy net iface (ip_packet id 6 src_addr dest_addr payload)).1
        ≡ to_tcp payload data_len)
      × (data_len ≡ length payload + word64 - 20)
short_segment_wraps policy net iface id src_addr dest_addr payload short four_bytes ours = (
  (length payload + word64 - 20) % word64,
  ap (λ (r : Network × Handler). r.1)
      (ip_packet-ip_input policy net iface id 6 src_addr dest_addr payload (omega arith)
        (omega arith) four_bytes ours),
  omega arith,
)
