-- ===== src/Harmony/Udp/Datagram.antt =====
-- A datagram from one socket of harmony/udp.c to another.
use limitless_os.Prelude.{
  ℕ, ◌+◌, ◌*◌, ◌/◌, ◌%◌, ◌^◌, ◌<◌, ◌≡◌, ◌≢◌, refl, ap, ap₂, subst, ◌∙◌, Bool, true, Option, none,
  some, List, [], ◌∷◌, ◌++◌, length, take, drop, ltb, ◌==◌, if◌then◌else◌, arith, Bool-cases, inl,
  inr,
}
use limitless_os.Harmony.Ip.{be16}
use limitless_os.Harmony.Udp.{
  UdpPacket, UdpSocket, Udp, udp_checksum, find_receiver, with_packet, change, bad_checksum,
  delivered, deliver_to, udp_input, datagram, udp_output, receive_first, udp_recvfrom,
}

-- The socket at an address.
abbrev pub socket_at : ℕ → List UdpSocket → Option UdpSocket
socket_at pointer [] = none
socket_at pointer (sock ∷ rest) =
    let later = socket_at pointer rest in if sock.pointer == pointer then some sock else later

change-at :
    (pointer : ℕ) (f : UdpSocket → UdpSocket) (list : List UdpSocket) (sock : UdpSocket)
    → ((s : UdpSocket) → (f s).pointer ≡ s.pointer)
    → socket_at pointer list ≡ some sock
    → socket_at pointer (change pointer f list) ≡ some (f sock)
unfolding change
change-at pointer f [] sock keeps found = absurd (cc found)
change-at pointer f (s ∷ rest) sock keeps found = elim (Bool-cases (s.pointer == pointer)) [
  | inl here ↦ ground (arith, keeps s)
  | inr other ↦ ground (arith, change-at pointer f rest sock keeps)
]

-- What a receiver gets of a datagram that was sent.
module _ (sock : UdpSocket) (src_addr dest_addr dest_port : ℕ) (payload : List ℕ) where
  abbrev pub packet_of : UdpPacket
  packet_of = record { src_addr = src_addr; src_port = sock.local_port; payload = payload }

  -- The socket with the packet behind the others.
  abbrev pub with_last : UdpSocket → UdpSocket
  with_last target = record target {
    recv_queue = target.recv_queue ++ packet_of ∷ [];
    recv_queue_count = (target.recv_queue_count + 1) % 2 ^ 32;
  }

  input_of_datagram :
      (receiver : Udp) (target : UdpSocket)
      → sock.local_port < 65536
      → dest_port < 65536
      → find_receiver dest_addr dest_port receiver.sockets ≡ some target
      → udp_input true src_addr dest_addr
          (take 8 (datagram sock.local_port dest_port payload))
          (drop 8 (datagram sock.local_port dest_port payload))
          receiver
        ≡ delivered target.pointer (record receiver {
          sockets = change target.pointer (with_packet packet_of) receiver.sockets;
        })
  unfolding udp_input deliver_to
  input_of_datagram receiver target src_word dest_word found =
      ap₂
        (λ (from to : ℕ).
          deliver_to true (record { src_addr = src_addr; src_port = from; payload = payload })
            receiver (find_receiver dest_addr to receiver.sockets))
        (source) (destination)
      ∙ ap (deliver_to true packet_of receiver) found
    where
      source : sock.local_port / 256 % 256 * 256 + sock.local_port % 256 ≡ sock.local_port
      source = omega (arith, src_word)

      destination : dest_port / 256 % 256 * 256 + dest_port % 256 ≡ dest_port
      destination = omega (arith, dest_word)

  -- A datagram that udp_output hands to the IP layer is put behind the others of the socket that
  -- it is for, where there is memory, and a call on a socket where no others wait gets its data,
  -- cut to the buffer, with the address and the port that it came from.
  pub udp_output-udp_recvfrom :
      (max_payload : ℕ) (answer : ℕ → List ℕ → ℕ) (sender receiver : Udp) (target : UdpSocket)
      (len : ℕ) (packet : List ℕ)
      → sock.local_port < 65536
      → dest_port < 65536
      → (udp_output max_payload true answer sock dest_port payload sender).2 ≡ some packet
      → find_receiver dest_addr dest_port receiver.sockets ≡ some target
      → socket_at target.pointer receiver.sockets ≡ some target
      → (after : Udp) × (udp_input true src_addr dest_addr (take 8 packet) (drop 8 packet) receiver
          ≡ delivered target.pointer after)
        × (socket_at target.pointer after.sockets ≡ some (with_last target))
        × (target.recv_queue ≡ []
            → (udp_recvfrom len (with_last target) after).1
              ≡ some (take len payload, src_addr, sock.local_port))
  unfolding udp_output udp_recvfrom receive_first
  udp_output-udp_recvfrom max_payload answer sender receiver target len packet src_word dest_word
        sent found known =
      (
        record receiver {
          sockets = change target.pointer (with_packet packet_of) receiver.sockets;
        },
        subst
            (λ (p : List ℕ).
              udp_input true src_addr dest_addr (take 8 p) (drop 8 p) receiver
              ≡ delivered target.pointer (record receiver {
                sockets = change target.pointer (with_packet packet_of) receiver.sockets;
              }))
            is_datagram (input_of_datagram receiver target src_word dest_word found),
        change-at target.pointer (with_packet packet_of) receiver.sockets target (λ s. refl) known,
        λ empty.
            ap
              (λ (q : List UdpPacket).
                (receive_first len (with_packet packet_of target) (q ++ packet_of ∷ [])
                  (record receiver {
                    sockets = change target.pointer (with_packet packet_of) receiver.sockets;
                  })).1)
              empty,
      )
    where
      is_datagram : datagram sock.local_port dest_port payload ≡ packet
      is_datagram = elim (Bool-cases (ltb max_payload (length payload))) [
        | inl long ↦ absurd (cc (rw long at sent))
        | inr short ↦ cc (rw short at sent)
      ]

-- A datagram whose header has the right checksum, and not 0, is dropped.
pub right_checksum_dropped :
    (allocated : Bool) (src_addr dest_addr : ℕ) (header payload : List ℕ) (udp : Udp)
    → be16 header 6 ≢ 0
    → udp_checksum src_addr dest_addr header payload ≡ be16 header 6
    → udp_input allocated src_addr dest_addr header payload udp ≡ bad_checksum
unfolding udp_input
right_checksum_dropped allocated src_addr dest_addr header payload udp some_sum right = ground arith
