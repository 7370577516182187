-- ===== src/Harmony/Icmp/Tests.antt =====
-- A ping from 10.0.0.1 to 10.0.0.2.
use limitless_os.Prelude.{ℕ, ◌≡◌, true, List, [], ◌∷◌, arith}
use limitless_os.Harmony.Hosts.{receiver_addr}
use limitless_os.Harmony.Icmp.{
  IcmpTypes, Icmp, icmp_send, icmp_notify_ping_reply, icmp_input, icmp_ping,
}
use limitless_os.Harmony.Icmp.Ping.{icmp_ping-icmp_input}

-- The numbers of RFC 792.
abbrev rfc792 : IcmpTypes
rfc792 = record {
  echo_reply = 0;
  dest_unreachable = 3;
  redirect = 5;
  echo_request = 8;
  time_exceeded = 11;
  ttl_exceeded = 0;
}

abbrev idle : Icmp
idle = record {
  echo_requests_sent = 0;
  echo_requests_received = 0;
  echo_replies_sent = 0;
  echo_replies_received = 0;
  dest_unreachable_sent = 0;
  dest_unreachable_received = 0;
  time_exceeded_sent = 0;
  time_exceeded_received = 0;
  ping_id = 1;
}

icmp_ping-icmp_input_example :
    (request : List ℕ) × (reply : List ℕ) × ((icmp_ping rfc792 true
        (λ o. 0)
        receiver_addr
        3
        (5 ∷ [])
        idle).2
      ≡ icmp_send 0 receiver_addr request)
    × ((icmp_input rfc792 true 167772161 receiver_addr request idle).1
        ≡ icmp_send receiver_addr 167772161 reply)
    × ((icmp_input rfc792 true receiver_addr 167772161 reply idle).1
        ≡ icmp_notify_ping_reply receiver_addr 1 3 1)
icmp_ping-icmp_input_example =
    icmp_ping-icmp_input rfc792 (λ o. 0) 167772161 receiver_addr 3 (5 ∷ []) idle idle idle true
      (omega arith) (omega arith) (omega arith)
