-- ===== src/Harmony/Tests.antt =====
-- The network stack between the two hosts of Harmony/Hosts.
use limitless_os.Prelude.{
  ℕ, ◌-◌, ◌%◌, ◌≡◌, refl, ◌⊎◌, true, false, none, some, List, [], ◌∷◌, ◌++◌, take, drop, get_elem?,
  arith,
}
use limitless_os.Harmony.Hosts.{host, local_route, network, receiver_addr, dest_mac, full}
use limitless_os.Harmony.Checksum.{
  add_words, fold_carries, complement, ip_checksum, ones_sum, ip_checksum_lem,
}
use limitless_os.Harmony.Ip.{Route, route_matches, ip_route_lookup}
use limitless_os.Harmony.Ip.Routing.{IsBest, ip_route_lookup_lem}
use limitless_os.Harmony.Tcp.{
  TcpState, syn_sent, established, Segment, Connection, Tcp, tcp_checksum,
}
use limitless_os.Harmony.Tcp.Input.{tcp_process, connection, Reaction, handled, tcp_input}
use limitless_os.Harmony.Tcp.Calls.{tcp_create_connection, new_connection, tcp_send}
use limitless_os.Harmony.Tcp.Diagram.{TwoEdges, tcp_process-TwoEdges}
use limitless_os.Harmony.Tcp.Sending.{lengths, Sends, tcp_send_lem}
use limitless_os.Harmony.Tcp.Segments.{send_queued, Receives, duplicate_delivered}
use limitless_os.Harmony.Arp.{Arp, EthFrame, renew, store_chain, arp_add_entry}
use limitless_os.Harmony.Arp.Calls.{arp_queue_packet, arp_resolve, arp_timer_tick, arp_init}
use limitless_os.Harmony.Arp.Cache.{NotExpired, arp_add_entry_lem, arp_timer_tick_lem}
use limitless_os.Harmony.Udp.{
  UdpPacket, UdpSocket, Udp, delivered, udp_input, datagram, udp_output, udp_recvfrom,
}
use limitless_os.Harmony.Udp.Bind.{bound_socket}
use limitless_os.Harmony.Udp.Datagram.{socket_at, with_last, udp_output-udp_recvfrom}

ip_checksum_lem_example : ip_checksum (69 ∷ 0 ∷ 255 ∷ []) ≡ 65535 - ones_sum (69 ∷ 0 ∷ 255 ∷ []) 0
ip_checksum_lem_example = ip_checksum_lem (69 ∷ 0 ∷ 255 ∷ []) (omega arith) (omega arith)

ip_route_lookup_lem_example :
    ((ip_route_lookup (network 167772161) 167772162 ≡ none)
      × ((j : ℕ) (s : Route)
          → get_elem? (local_route ∷ []) j ≡ some s
          → route_matches 167772162 s ≡ false))
    ⊎ ((i : ℕ) × (r : Route) × (ip_route_lookup (network 167772161) 167772162 ≡ some r.interface)
        × IsBest 167772162 (local_route ∷ []) i r)
ip_route_lookup_lem_example = ip_route_lookup_lem (network 167772161) 167772162

-- A queue that grows at its end.
abbrev queued : Connection → Segment → List Segment
queued c s = c.retrans_queue ++ s ∷ []

abbrev in_state : TcpState → Tcp
in_state state =
    let t = new_connection 1000 1 40000 2 80 in record t { conn = record t.conn { state = state } }

tcp_process-TwoEdges_example :
    TwoEdges 18 syn_sent
      (tcp_process
        (send_queued queued)
        18
        5
        1001
        []
        true
        true
        true
        8
        (in_state syn_sent)).conn.state
tcp_process-TwoEdges_example =
    tcp_process-TwoEdges (send_queued queued) (λ c s. refl) 18 5 1001 [] true true true 8
      (in_state syn_sent)

tcp_send_lem_example :
    let r = tcp_send (send_queued queued) (λ k. true) 7 3000 (in_state established) in
    (segments : List Segment) × (left : ℕ) × Sends (in_state established) r.0 3000 segments left
    × (r.1 ≡ lengths segments % 4294967296)
    × (((k : ℕ) → true ≡ true) → left ≡ 0)
unfolding tcp_create_connection
tcp_send_lem_example =
    tcp_send_lem queued 7 (λ k. true) 3000 (in_state established) refl (omega arith) (omega arith)

-- The sum of the words of this segment, from address 1 to address 2, is 65535.
abbrev zero_summed : List ℕ
zero_summed =
    0 ∷ 80 ∷ 0 ∷ 81 ∷ 0 ∷ 0 ∷ 0 ∷ 5 ∷ 0 ∷ 0 ∷ 0 ∷ 6 ∷ 80 ∷ 24 ∷ 174 ∷ 26 ∷ 0 ∷ 0 ∷ 0 ∷ 0 ∷ []

duplicate_delivered_example :
    let input : Tcp → Reaction = λ c.
      tcp_input (send_queued queued) 1 2 zero_summed (1 ∷ 2 ∷ []) (connection c) true true true 7 in
    (u : Tcp) × (v : Tcp) × (input (in_state established) ≡ handled u)
    × (input u ≡ handled v)
    × Receives (in_state established) v (1 ∷ 2 ∷ 1 ∷ 2 ∷ [])
unfolding tcp_create_connection tcp_checksum complement fold_carries add_words
duplicate_delivered_example =
    duplicate_delivered queued 1 2 zero_summed (1 ∷ 2 ∷ []) true true true 7 (in_state established)
      refl refl refl (omega arith) (omega arith)

-- A SYN with its checksum, from address 1 to address 2.
abbrev summed_segment : List ℕ
summed_segment =
    15 ∷ 160 ∷ 0 ∷ 53 ∷ 0 ∷ 9 ∷ 0 ∷ 0 ∷ 0 ∷ 9 ∷ 0 ∷ 0 ∷ 80 ∷ 2 ∷ 0 ∷ 0 ∷ 159 ∷ 249 ∷ 0 ∷ 0 ∷ []

arp_add_entry_lem_example :
    (arp_resolve true true
      (λ f. 0)
      host
      1000
      1
      receiver_addr
      (arp_add_entry true (λ k. true) host 10 receiver_addr dest_mac arp_init).0).1
    ≡ some dest_mac
unfolding arp_add_entry store_chain renew arp_init
arp_add_entry_lem_example =
    arp_add_entry_lem true (λ k. true) host 10 receiver_addr dest_mac arp_init true true (λ f. 0)
      1000 1 receiver_addr refl (omega arith)

arp_timer_tick_lem_example :
    ((arp_resolve true true
        (λ f. 0)
        host
        400000000
        1
        receiver_addr
        (arp_timer_tick 300000011 full)).1
      ≡ (arp_resolve true true (λ f. 0) host 400000000 1 receiver_addr full).1)
    × ((hash : ℕ) → NotExpired 300000011 ((arp_timer_tick 300000011 full).cache hash))
arp_timer_tick_lem_example =
    arp_timer_tick_lem 300000011 400000000 1 receiver_addr full true true (λ f. 0) host
      (λ hash. (omega arith, tt)) (omega arith) (omega arith)

abbrev queue_one : List ℕ → Arp → Arp × ℕ × List EthFrame
queue_one = arp_queue_packet true true true true (λ f. 0) host 10 1 receiver_addr 2048

abbrev no_sockets : Udp
no_sockets = record { sockets = []; port_counter = 65535 }

-- A socket on port 80 of all addresses.
abbrev web_host : Udp
web_host = record { sockets = bound_socket 50 1 0 80 ∷ []; port_counter = 49152 }

abbrev dns_socket : UdpSocket
dns_socket = bound_socket 100 7 receiver_addr 53

abbrev dns_host : Udp
dns_host = record { sockets = dns_socket ∷ []; port_counter = 49152 }

udp_output-udp_recvfrom_example :
    (after : Udp) × (udp_input true 5 receiver_addr
        (take 8 (datagram 4000 53 (1 ∷ 2 ∷ [])))
        (drop 8 (datagram 4000 53 (1 ∷ 2 ∷ [])))
        dns_host
      ≡ delivered 100 after)
    × (socket_at 100 after.sockets
        ≡ some (with_last (bound_socket 9 9 5 4000) 5 receiver_addr 53 (1 ∷ 2 ∷ []) dns_socket))
    × (◌≡◌ {A = List UdpPacket} [] []
        → (udp_recvfrom 1
            (with_last (bound_socket 9 9 5 4000) 5 receiver_addr 53 (1 ∷ 2 ∷ []) dns_socket)
            after).1
          ≡ some (1 ∷ [], 5, 4000))
unfolding udp_output
udp_output-udp_recvfrom_example =
    udp_output-udp_recvfrom (bound_socket 9 9 5 4000) 5 receiver_addr 53 (1 ∷ 2 ∷ []) 65507
      (λ a p. 0) no_sockets dns_host dns_socket 1 (datagram 4000 53 (1 ∷ 2 ∷ [])) (omega arith)
      (omega arith) refl refl refl
