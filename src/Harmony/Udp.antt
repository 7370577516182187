-- ===== src/Harmony/Udp.antt =====
-- The sockets of harmony/udp.c. A socket is known by its address, `pointer`; the list of sockets and the
-- receive queues are kept in their order from the head on. An answer of `flux_allocate` is whether it
-- finds memory, and for a new socket its address. `udp_find_socket`, which no file defines, finds the
-- socket that the argument gives.
pub mod Bind
pub mod Datagram
use limitless_os.Prelude.{
  ℕ, zero, suc, ◌+◌, ◌-◌, ◌*◌, ◌/◌, ◌%◌, Bool, true, false, not, ◌&&◌, ◌||◌, Option, none, some,
  List, [], ◌∷◌, ◌++◌, length, take, drop, ltb, ◌==◌, if◌then◌else◌,
}
use limitless_os.Temporal.Quantum.{word32, word64}
use limitless_os.Harmony.Checksum.{add_words, complement}
use limitless_os.Harmony.Ip.{failure, be16}

pub record UdpPacket : Type 0 where
  pub src_addr : ℕ
  pub src_port : ℕ
  pub payload : List ℕ

pub record UdpSocket : Type 0 where
  pub pointer : ℕ
  pub local_addr : ℕ
  pub local_port : ℕ
  pub owner : Option ℕ
  pub recv_queue : List UdpPacket
  pub recv_queue_count : ℕ
  pub packets_sent : ℕ
  pub bytes_sent : ℕ

pub record Udp : Type 0 where
  pub sockets : List UdpSocket
  pub port_counter : ℕ

abbrev pub udp_pseudo_header : ℕ → ℕ → List ℕ → List ℕ
udp_pseudo_header src_addr dest_addr length_bytes =
    src_addr / 16777216 % 256
    ∷ src_addr / 65536 % 256
    ∷ src_addr / 256 % 256
    ∷ src_addr % 256
    ∷ dest_addr / 16777216 % 256
    ∷ dest_addr / 65536 % 256
    ∷ dest_addr / 256 % 256
    ∷ dest_addr % 256
    ∷ 0
    ∷ 17
    ∷ length_bytes

-- The header's checksum, its last two bytes, is set to 0.
unfoldable pub udp_checksum : ℕ → ℕ → List ℕ → List ℕ → ℕ
udp_checksum src_addr dest_addr header payload =
    let pseudo = udp_pseudo_header src_addr dest_addr (take 2 (drop 4 header)) in
    let cleared = take 6 header ++ 0 ∷ 0 ∷ [] in
    complement (add_words payload (add_words cleared (add_words pseudo 0)))

-- The socket of a datagram: the first that fits.
abbrev pub receives : ℕ → ℕ → UdpSocket → Bool
receives dest_addr dest_port sock =
    sock.local_port == dest_port && (sock.local_addr == 0 || sock.local_addr == dest_addr)

abbrev pub find_receiver : ℕ → ℕ → List UdpSocket → Option UdpSocket
find_receiver dest_addr dest_port [] = none
find_receiver dest_addr dest_port (sock ∷ rest) =
    let later = find_receiver dest_addr dest_port rest in
    if receives dest_addr dest_port sock then some sock else later

abbrev pub with_packet : UdpPacket → UdpSocket → UdpSocket
with_packet p sock = record sock {
  recv_queue = sock.recv_queue ++ p ∷ [];
  recv_queue_count = (sock.recv_queue_count + 1) % word32;
}

-- The list with one socket changed.
unfoldable pub change : ℕ → (UdpSocket → UdpSocket) → List UdpSocket → List UdpSocket
change pointer f [] = []
change pointer f (sock ∷ rest) =
    let later = change pointer f rest in
    if sock.pointer == pointer then f sock ∷ rest else sock ∷ later

-- What a datagram leads to.
pub data UdpInput : Type 0 where
  bad_checksum : UdpInput
  port_unreachable : UdpInput
  no_memory : UdpInput
  delivered : ℕ → Udp → UdpInput

unfoldable pub deliver_to : Bool → UdpPacket → Udp → Option UdpSocket → UdpInput
deliver_to allocated p udp none = port_unreachable
deliver_to allocated p udp (some sock) =
    if allocated
    then delivered sock.pointer
        (record udp { sockets = change sock.pointer (with_packet p) udp.sockets })
    else no_memory

-- The header is the first 8 bytes. `rx_errors` of the interface counts each `bad_checksum`.
unfoldable pub udp_input : Bool → ℕ → ℕ → List ℕ → List ℕ → Udp → UdpInput
udp_input allocated src_addr dest_addr header payload udp =
    let p : UdpPacket = record {
      src_addr = src_addr;
      src_port = be16 header 0;
      payload = payload;
    } in
    if not (be16 header 6 == 0) && not (udp_checksum src_addr dest_addr header payload == 0)
    then bad_checksum
    else deliver_to allocated p udp (find_receiver dest_addr (be16 header 2) udp.sockets)

abbrev pub new_socket : ℕ → UdpSocket
new_socket pointer = record {
  pointer = pointer;
  local_addr = 0;
  local_port = 0;
  owner = none;
  recv_queue = [];
  recv_queue_count = 0;
  packets_sent = 0;
  bytes_sent = 0;
}

-- With memory at the address.
unfoldable pub udp_create_socket : ℕ → Udp → Udp
udp_create_socket pointer udp = record udp { sockets = new_socket pointer ∷ udp.sockets }

unfoldable pub unlink_socket : ℕ → List UdpSocket → List UdpSocket
unlink_socket pointer [] = []
unlink_socket pointer (sock ∷ rest) =
    let later = unlink_socket pointer rest in if sock.pointer == pointer then rest else sock ∷ later

unfoldable pub udp_destroy_socket : ℕ → Udp → Udp
udp_destroy_socket pointer udp = record udp { sockets = unlink_socket pointer udp.sockets }

abbrev pub in_use : ℕ → ℕ → List UdpSocket → Bool
in_use addr port [] = false
in_use addr port (sock ∷ rest) =
    (sock.local_port == port && (sock.local_addr == addr || sock.local_addr == 0 || addr == 0))
    || in_use addr port rest

abbrev pub bind_to : ℕ → ℕ → ℕ → UdpSocket → UdpSocket
bind_to owner addr port sock = record sock {
  local_addr = addr;
  local_port = port;
  owner = some owner;
}

-- `g_udp_port_counter++` is a 16-bit word, so it is never above PORT_EPHEMERAL_MAX.
abbrev pub next_port : ℕ → ℕ
next_port counter = let next = (counter + 1) % 65536 in if ltb 65535 next then 49152 else next

-- A call's state, the port that it leaves in the socket, if any, and its result.
unfoldable pub udp_bind : Option ℕ → ℕ → ℕ → ℕ → Udp → Udp × Option ℕ × ℕ
udp_bind none owner addr port udp = (udp, none, failure)
udp_bind (some pointer) owner addr port udp =
    let created = udp_create_socket pointer udp in
    let bound = λ (p : ℕ). change pointer (bind_to owner addr p) created.sockets in
    if port == 0
    then (
      record { sockets = bound udp.port_counter; port_counter = next_port udp.port_counter },
      some udp.port_counter,
      0,
    )
    else if in_use addr port created.sockets
    then (udp_destroy_socket pointer created, none, failure)
    else (record created { sockets = bound port }, some port, 0)

-- The datagram of `udp_output`: its header and the data.
abbrev pub datagram : ℕ → ℕ → List ℕ → List ℕ
datagram src_port dest_port payload =
    let n = 8 + length payload in
    src_port / 256 % 256
    ∷ src_port % 256
    ∷ dest_port / 256 % 256
    ∷ dest_port % 256
    ∷ n / 256 % 256
    ∷ n % 256
    ∷ 0
    ∷ 0
    ∷ payload

abbrev pub count_sent : ℕ → UdpSocket → UdpSocket
count_sent n sock = record sock {
  packets_sent = (sock.packets_sent + 1) % word64;
  bytes_sent = (sock.bytes_sent + n) % word64;
}

-- `max_payload` is UDP_MAX_PAYLOAD of a header that is missing, and `answer` what `ip_send` returns for
-- the source and the datagram, which the call hands on.
unfoldable pub udp_output :
    ℕ → Bool → (ℕ → List ℕ → ℕ) → UdpSocket → ℕ → List ℕ → Udp → Udp × ℕ × Option (List ℕ)
udp_output max_payload allocated answer sock dest_port payload udp =
    let packet = datagram sock.local_port dest_port payload in
    let result = answer sock.local_addr packet in
    let counted = record udp {
      sockets = change sock.pointer (count_sent (length payload)) udp.sockets;
    } in
    if ltb max_payload (length payload)
    then (udp, failure, none)
    else if not allocated
    then (udp, failure, none)
    else (if result == 0 then counted else udp, result, some packet)

abbrev pub without_first : UdpSocket → UdpSocket
without_first sock = record sock {
  recv_queue = drop 1 sock.recv_queue;
  recv_queue_count = (sock.recv_queue_count + word32 - 1) % word32;
}

-- The bytes copied, with the address and the port they came from; `none` where no data are available.
unfoldable pub receive_first : ℕ → UdpSocket → List UdpPacket → Udp → Udp × Option (List ℕ × ℕ × ℕ)
receive_first len sock [] udp = (udp, none)
receive_first len sock (p ∷ rest) udp = (
  record udp { sockets = change sock.pointer without_first udp.sockets },
  some (take len p.payload, p.src_addr, p.src_port),
)

unfoldable pub udp_recvfrom : ℕ → UdpSocket → Udp → Udp × Option (List ℕ × ℕ × ℕ)
udp_recvfrom len sock udp = receive_first len sock sock.recv_queue udp
