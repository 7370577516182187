-- ===== src/Harmony/Icmp.antt =====
-- harmony/icmp.c. A message is the list of its bytes, the eight of its header first. What a call hands to
-- `ip_send` or to a handler that no file defines is its output.
pub mod Ping
mod Tests
use limitless_os.Prelude.{
  ℕ, ◌+◌, ◌-◌, ◌*◌, ◌/◌, ◌%◌, Bool, not, Option, none, some, List, [], ◌∷◌, ◌++◌, length, take,
  drop, get_or, ltb, ◌==◌, if◌then◌else◌,
}
use limitless_os.Temporal.Quantum.{word32, word64}
use limitless_os.Harmony.Checksum.{ip_checksum}
use limitless_os.Harmony.Ip.{failure, be16, le16}

-- The constants of icmp.h, which is not in the repository. Each is a byte.
pub record IcmpTypes : Type 0 where
  pub echo_reply : ℕ
  pub dest_unreachable : ℕ
  pub redirect : ℕ
  pub echo_request : ℕ
  pub time_exceeded : ℕ
  pub ttl_exceeded : ℕ

-- The counters of `g_icmp_stats`, and `g_ping_id`.
pub record Icmp : Type 0 where
  pub echo_requests_sent : ℕ
  pub echo_requests_received : ℕ
  pub echo_replies_sent : ℕ
  pub echo_replies_received : ℕ
  pub dest_unreachable_sent : ℕ
  pub dest_unreachable_received : ℕ
  pub time_exceeded_sent : ℕ
  pub time_exceeded_received : ℕ
  pub ping_id : ℕ

pub data IcmpOutput : Type 0 where
  no_output : IcmpOutput
  icmp_send : ℕ → ℕ → List ℕ → IcmpOutput
  icmp_notify_ping_reply : ℕ → ℕ → ℕ → ℕ → IcmpOutput
  icmp_handle_dest_unreachable : List ℕ → IcmpOutput
  icmp_handle_time_exceeded : List ℕ → IcmpOutput
  icmp_handle_redirect : List ℕ → IcmpOutput

abbrev pub next_count : ℕ → ℕ
next_count n = (n + 1) % word64

-- The loops are those of `ip_checksum`.
unfoldable pub icmp_checksum : List ℕ → ℕ
icmp_checksum bytes = ip_checksum (take 2 bytes ++ 0 ∷ 0 ∷ drop 4 bytes)

-- A message whose checksum was set last, in the order of a little-endian processor. `rest` is what is
-- behind the checksum.
abbrev pub icmp_message : ℕ → ℕ → List ℕ → List ℕ
icmp_message type code rest =
    let checksum = icmp_checksum (type ∷ code ∷ 0 ∷ 0 ∷ rest) in
    type ∷ code ∷ checksum % 256 ∷ checksum / 256 % 256 ∷ rest

-- The message is from `src_addr` to `dest_addr`. The reply is sent whatever `ip_send` returns.
unfoldable pub icmp_handle_echo_request :
    IcmpTypes → Bool → ℕ → ℕ → List ℕ → Icmp → Icmp × IcmpOutput
icmp_handle_echo_request types allocated src_addr dest_addr bytes icmp =
    if not allocated then (icmp, no_output) else (
      record icmp { echo_replies_sent = next_count icmp.echo_replies_sent },
      icmp_send dest_addr src_addr (icmp_message types.echo_reply 0 (drop 4 bytes)),
    )

abbrev pub icmp_handle_echo_reply : ℕ → List ℕ → IcmpOutput
icmp_handle_echo_reply src_addr bytes =
    icmp_notify_ping_reply src_addr (be16 bytes 4) (be16 bytes 6) (length bytes - 8)

unfoldable pub icmp_input : IcmpTypes → Bool → ℕ → ℕ → List ℕ → Icmp → Icmp × IcmpOutput
icmp_input types allocated src_addr dest_addr bytes icmp =
    let type = get_or bytes 0 0 in
    if ltb (length bytes) 8
    then (icmp, no_output)
    else if not (icmp_checksum bytes == le16 bytes 2)
    then (icmp, no_output)
    else if type == types.echo_request
    then icmp_handle_echo_request types allocated src_addr dest_addr bytes
        (record icmp { echo_requests_received = next_count icmp.echo_requests_received })
    else if type == types.echo_reply
    then (
      record icmp { echo_replies_received = next_count icmp.echo_replies_received },
      icmp_handle_echo_reply src_addr bytes,
    )
    else if type == types.dest_unreachable
    then (
      record icmp { dest_unreachable_received = next_count icmp.dest_unreachable_received },
      icmp_handle_dest_unreachable bytes,
    )
    else if type == types.time_exceeded
    then (
      record icmp { time_exceeded_received = next_count icmp.time_exceeded_received },
      icmp_handle_time_exceeded bytes,
    )
    else if type == types.redirect
    then (icmp, icmp_handle_redirect bytes)
    else (icmp, no_output)

-- `orig_ip` is the memory from the original IP header on, `iface_addr` the address of the interface and
-- `orig_src` the header's source.
unfoldable pub icmp_send_dest_unreachable :
    IcmpTypes → Bool → ℕ → ℕ → List ℕ → ℕ → Icmp → Icmp × ℕ × IcmpOutput
icmp_send_dest_unreachable types allocated iface_addr orig_src orig_ip code icmp =
    if not allocated then (icmp, failure, no_output) else (
      record icmp { dest_unreachable_sent = next_count icmp.dest_unreachable_sent },
      0,
      icmp_send iface_addr orig_src
          (icmp_message types.dest_unreachable code (0 ∷ 0 ∷ 0 ∷ 0 ∷ take 28 orig_ip)),
    )

unfoldable pub icmp_send_time_exceeded :
    IcmpTypes → Bool → ℕ → ℕ → List ℕ → Icmp → Icmp × ℕ × IcmpOutput
icmp_send_time_exceeded types allocated iface_addr orig_src orig_ip icmp =
    if not allocated then (icmp, failure, no_output) else (
      record icmp { time_exceeded_sent = next_count icmp.time_exceeded_sent },
      0,
      icmp_send iface_addr orig_src
          (icmp_message types.time_exceeded types.ttl_exceeded (0 ∷ 0 ∷ 0 ∷ 0 ∷ take 28 orig_ip)),
    )

-- `payload` is what is behind the header: the data, or what the new memory holds where there are none.
-- `answer` is what `ip_send` returns.
unfoldable pub icmp_ping :
    IcmpTypes → Bool → (IcmpOutput → ℕ) → ℕ → ℕ → List ℕ → Icmp → Icmp × ℕ × IcmpOutput
icmp_ping types allocated answer dest_addr sequence payload icmp =
    let id = icmp.ping_id in
    let next = record icmp { ping_id = (id + 1) % 65536 } in
    let output = icmp_send 0 dest_addr (
      icmp_message types.echo_request 0
        (id / 256 % 256 ∷ id % 256 ∷ sequence / 256 % 256 ∷ sequence % 256 ∷ payload)) in
    if not allocated
    then (icmp, failure, no_output)
    else if answer output == 0
    then (
      record next { echo_requests_sent = next_count next.echo_requests_sent },
      answer output,
      output,
    )
    else (next, answer output, output)

-- `memset` of the counters.
unfoldable pub icmp_init : Icmp → Icmp
icmp_init icmp = record {
  echo_requests_sent = 0;
  echo_requests_received = 0;
  echo_replies_sent = 0;
  echo_replies_received = 0;
  dest_unreachable_sent = 0;
  dest_unreachable_received = 0;
  time_exceeded_sent = 0;
  time_exceeded_received = 0;
  ping_id = icmp.ping_id;
}

-- The six counters that are copied.
unfoldable pub icmp_get_statistics : Icmp → ℕ × ℕ × ℕ × ℕ × ℕ × ℕ
icmp_get_statistics icmp = (
  icmp.echo_requests_sent, icmp.echo_requests_received, icmp.echo_replies_sent,
  icmp.echo_replies_received, icmp.dest_unreachable_sent, icmp.dest_unreachable_received,
)
