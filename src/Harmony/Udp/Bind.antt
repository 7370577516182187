-- ===== src/Harmony/Udp/Bind.antt =====
-- Binding of sockets in harmony/udp.c.
use limitless_os.Prelude.{
  ℕ, ◌+◌, ◌%◌, ◌<◌, ◌≡◌, ◌≢◌, refl, ap₂, ℕ_discrete, ◌&&◌, ◌||◌, ◌==◌, subst, Bool, true, false,
  Option, none, some, List, ◌⊎◌, [], ◌∷◌, if◌then◌else◌, arith, inl, inr, ==_refl,
}
use limitless_os.Harmony.Ip.{failure}
use limitless_os.Harmony.Udp.{
  UdpSocket, Udp, change, new_socket, udp_create_socket, in_use, bind_to, next_port, udp_bind,
}

-- A socket has the port on an address that a socket at `addr` would get datagrams of, too: the address 0
-- stands for all.
abbrev pub Shares : ℕ → ℕ → UdpSocket → Type 0
Shares addr port sock =
    (sock.local_port ≡ port) × ((sock.local_addr ≡ addr) ⊎ (sock.local_addr ≡ 0) ⊎ (addr ≡ 0))

abbrev pub NoneShares : ℕ → ℕ → List UdpSocket → Type 0
NoneShares addr port [] = Unit {0}
NoneShares addr port (sock ∷ rest) = ¬ (Shares addr port sock) × NoneShares addr port rest

-- No two sockets that are bound to a port share it.
abbrev pub Apart : List UdpSocket → Type 0
Apart [] = Unit {0}
Apart (sock ∷ rest) =
    (sock.local_port ≢ 0 → NoneShares sock.local_addr sock.local_port rest) × Apart rest

-- The test of the loop.
abbrev shares_test : UdpSocket → ℕ → ℕ → Bool
shares_test sock addr port =
    sock.local_port == port && (sock.local_addr == addr || sock.local_addr == 0 || addr == 0)

apart_lem :
    (sock : UdpSocket) (addr port : ℕ)
    → ¬ Shares addr port sock
    → shares_test sock addr port ≡ false
apart_lem sock addr port apart = elim (ℕ_discrete sock.local_port port) [
  | no other ↦ ground arith
  | yes same ↦ elim (ℕ_discrete sock.local_addr addr) [
    | yes e ↦ absurd (apart (same, inl e))
    | no ne ↦ elim (ℕ_discrete sock.local_addr 0) [
      | yes e ↦ absurd (apart (same, inr (inl e)))
      | no ne_any ↦ elim (ℕ_discrete addr 0) [
        | yes e ↦ absurd (apart (same, inr (inr e)))
        | no ne_all ↦ ground arith
      ]
    ]
  ]
]

NoneShares-in_use :
    (addr port : ℕ) (list : List UdpSocket)
    → NoneShares addr port list
    → in_use addr port list ≡ false
NoneShares-in_use addr port [] none_shares = refl
NoneShares-in_use addr port (sock ∷ rest) (apart, none_shares) =
    ground (arith, apart_lem sock addr port apart, NoneShares-in_use addr port rest none_shares)

-- The socket that a call creates is the first of the list.
abbrev pub bound_socket : ℕ → ℕ → ℕ → ℕ → UdpSocket
bound_socket pointer owner addr port = record {
  pointer = pointer;
  local_addr = addr;
  local_port = port;
  owner = some owner;
  recv_queue = [];
  recv_queue_count = 0;
  packets_sent = 0;
  bytes_sent = 0;
}

module _ (pointer owner addr : ℕ) (udp : Udp) where
  bound_first :
      (port : ℕ)
      → change pointer (bind_to owner addr port) (new_socket pointer ∷ udp.sockets)
        ≡ bound_socket pointer owner addr port ∷ udp.sockets
  unfolding change
  bound_first port = rw (==_refl pointer) refl

  -- The two outcomes of a call with a port.
  abbrev pub bound_or_used : ℕ → Bool → Udp × Option ℕ × ℕ
  bound_or_used port used = if used then (udp, none, failure) else (
    record udp { sockets = bound_socket pointer owner addr port ∷ udp.sockets },
    some port,
    0,
  )

  abbrev pub on_counter : List UdpSocket → ℕ → Udp × Option ℕ × ℕ
  on_counter sockets counter =
      (record { sockets = sockets; port_counter = counter }, some udp.port_counter, 0)

  -- Without a port the call takes the next of the counter, also where another socket has it, and the
  -- counter goes on from 65535 to 0.
  pub ephemeral_port :
      udp.port_counter < 65536
      → (udp_bind (some pointer) owner addr 0 udp
          ≡ on_counter
              (bound_socket pointer owner addr udp.port_counter ∷ udp.sockets)
              ((udp.port_counter + 1) % 65536))
        × (udp.port_counter ≢ 0
            → in_use addr udp.port_counter udp.sockets ≡ true
            → ¬ Apart (udp_bind (some pointer) owner addr 0 udp).0.sockets)
  unfolding udp_bind udp_create_socket
  ephemeral_port word =
      let runs : udp_bind (some pointer) owner addr 0 udp
          ≡ on_counter (bound_socket pointer owner addr udp.port_counter ∷ udp.sockets)
              ((udp.port_counter + 1) % 65536) =
        ap₂ on_counter (bound_first udp.port_counter) next in
      (
        runs,
        λ port used apart. cc (
          used,
          NoneShares-in_use addr udp.port_counter udp.sockets
              ((subst (λ (r : Udp × Option ℕ × ℕ). Apart r.0.sockets) runs apart).0 port),
        ),
      )
    where
      next : next_port udp.port_counter ≡ (udp.port_counter + 1) % 65536
      next = ground arith
