-- ===== src/Harmony/Icmp/Ping.antt =====
-- A ping of harmony/icmp.c and its reply.
use limitless_os.Prelude.{
  ℕ, ◌-◌, ◌/◌, ◌%◌, ◌<◌, ◌≡◌, ◌≢◌, refl, ap, ap₂, ◌∙◌, Bool, true, false, List, ◌∷◌, length, ltb,
  ==_refl, ==_ne, ◌==◌, arith,
}
use limitless_os.Harmony.Checksum.{ip_checksum}
use limitless_os.Harmony.Ip.{be16, le16}
use limitless_os.Harmony.Ip.Exchange.{ip_checksum_bound}
use limitless_os.Harmony.Icmp.{
  IcmpTypes, Icmp, IcmpOutput, icmp_send, icmp_notify_ping_reply, icmp_checksum, icmp_message,
  icmp_handle_echo_request, icmp_input, icmp_ping,
}

-- The checksum of a message that was built is the one it carries.
message_checksum :
    (type code : ℕ) (rest : List ℕ)
    → (icmp_checksum (icmp_message type code rest) == le16 (icmp_message type code rest) 2) ≡ true
unfolding icmp_checksum
message_checksum type code rest =
    ap (λ (c : ℕ). ip_checksum (type ∷ code ∷ 0 ∷ 0 ∷ rest) == c)
      (omega (arith, ip_checksum_bound (type ∷ code ∷ 0 ∷ 0 ∷ rest)))
    ∙ ==_refl (ip_checksum (type ∷ code ∷ 0 ∷ 0 ∷ rest))

module _ (types : IcmpTypes) (src_addr dest_addr id sequence : ℕ) (payload : List ℕ) where
  abbrev pub echo : ℕ → List ℕ
  echo kind =
      icmp_message kind 0
        (id / 256 % 256 ∷ id % 256 ∷ sequence / 256 % 256 ∷ sequence % 256 ∷ payload)

  long : (kind : ℕ) → ltb (length (echo kind)) 8 ≡ false
  long kind = ground arith

  request_answered :
      (receiver : Icmp)
      → (icmp_input types true src_addr dest_addr (echo types.echo_request) receiver).1
        ≡ icmp_send dest_addr src_addr (echo types.echo_reply)
  unfolding icmp_input icmp_handle_echo_request
  request_answered receiver = rw (long types.echo_request) (
      rw
        (message_checksum types.echo_request 0
          (id / 256 % 256 ∷ id % 256 ∷ sequence / 256 % 256 ∷ sequence % 256 ∷ payload))
        (rw (==_refl types.echo_request) refl))

  reply_notified :
      (sender : Icmp) (allocated : Bool)
      → id < 65536
      → sequence < 65536
      → types.echo_reply ≢ types.echo_request
      → (icmp_input types allocated dest_addr src_addr (echo types.echo_reply) sender).1
        ≡ icmp_notify_ping_reply dest_addr id sequence (length payload)
  unfolding icmp_input
  reply_notified sender allocated id_word sequence_word different = rw (long types.echo_reply) (
      rw
        (message_checksum types.echo_reply 0
          (id / 256 % 256 ∷ id % 256 ∷ sequence / 256 % 256 ∷ sequence % 256 ∷ payload))
        (rw (==_ne types.echo_reply types.echo_request different) (
          rw (==_refl types.echo_reply) (
            ap₂
              (λ (i q : ℕ).
                icmp_notify_ping_reply dest_addr i q (length (echo types.echo_reply) - 8))
              {x = be16 (echo types.echo_reply) 4} (omega (arith, id_word))
              (omega (arith, sequence_word))
            ∙ ap (icmp_notify_ping_reply dest_addr id sequence) (omega arith)))))

-- Where the host that is pinged finds memory, its answer to the request is a message from its address to
-- the sender's, and the sender notes a reply with the identifier that it gave, the sequence number and the
-- length of the data.
pub icmp_ping-icmp_input :
    (types : IcmpTypes) (answer : IcmpOutput → ℕ) (src_addr dest_addr sequence : ℕ)
    (payload : List ℕ) (sender receiver later : Icmp) (allocated : Bool)
    → types.echo_reply ≢ types.echo_request
    → sender.ping_id < 65536
    → sequence < 65536
    → (request : List ℕ) × (reply : List ℕ) × ((icmp_ping types true answer dest_addr sequence
          payload sender).2
        ≡ icmp_send 0 dest_addr request)
      × ((icmp_input types true src_addr dest_addr request receiver).1
          ≡ icmp_send dest_addr src_addr reply)
      × ((icmp_input types allocated dest_addr src_addr reply later).1
          ≡ icmp_notify_ping_reply dest_addr sender.ping_id sequence (length payload))
unfolding icmp_ping
icmp_ping-icmp_input types answer src_addr dest_addr sequence payload sender receiver later
      allocated different id_word sequence_word =
    let echo_of : ℕ → List ℕ = echo types src_addr dest_addr sender.ping_id sequence payload in
    (
      echo_of types.echo_request,
      echo_of types.echo_reply,
      ground arith,
      request_answered types src_addr dest_addr sender.ping_id sequence payload receiver,
      reply_notified types src_addr dest_addr sender.ping_id sequence payload later allocated
          id_word sequence_word different,
    )
