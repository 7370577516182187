-- ===== src/Harmony/Ethernet/Frame.antt =====
-- The fields of a frame that harmony/ethernet.c builds, as `ethernet_input` reads them.
use limitless_os.Prelude.{
  ℕ, ◌+◌, ◌-◌, ◌*◌, ◌/◌, ◌%◌, ◌<◌, ◌≡◌, refl, ap, ap₂, sym, subst, ◌∙◌, Bool, true, false, List, [],
  ◌∷◌, ◌++◌, length, length-append, length-replicate, take, take_all, take-append, drop,
  drop-append, get_or, get_or-drop, append_assoc, ltb, arith,
}
use limitless_os.Harmony.Ip.{Interface, be16}
use limitless_os.Harmony.Arp.{eth_header}
use limitless_os.Harmony.Ethernet.{
  MulticastEntry, frame_for_us, upper, ethernet_input, frame_length, padding,
}

front : (n : ℕ) (xs ys : List ℕ) → length xs ≡ n → take n (xs ++ ys) ≡ xs
front n xs ys e = subst (λ (k : ℕ). take k (xs ++ ys) ≡ xs) e (take-append xs ys)

behind_front : (n : ℕ) (xs ys : List ℕ) → length xs ≡ n → drop n (xs ++ ys) ≡ ys
behind_front n xs ys e = subst (λ (k : ℕ). drop k (xs ++ ys) ≡ ys) e (drop-append xs ys)

-- The fields of a frame.
module _ (dest src kind payload : List ℕ) (six_dest : length dest ≡ 6) (six_src : length src ≡ 6)
    (two : length kind ≡ 2) where
  frame_length_lem : length ((dest ++ src ++ kind) ++ payload) ≡ 14 + length payload
  frame_length_lem = omega (
    arith,
    length-append (dest ++ src ++ kind) payload,
    length-append (dest ++ src) kind,
    length-append dest src,
  )

  frame_dest : take 6 ((dest ++ src ++ kind) ++ payload) ≡ dest
  frame_dest = rw (append_assoc (dest ++ src) kind payload) (
      rw (append_assoc dest src (kind ++ payload))
        (front 6 dest (src ++ (kind ++ payload)) six_dest))

  frame_payload : drop 14 ((dest ++ src ++ kind) ++ payload) ≡ payload
  frame_payload =
      behind_front 14 (dest ++ src ++ kind) payload
        (omega (arith, length-append (dest ++ src) kind, length-append dest src))

  frame_kind : drop 12 ((dest ++ src ++ kind) ++ payload) ≡ kind ++ payload
  frame_kind =
      rw (append_assoc (dest ++ src) kind payload)
        (behind_front 12 (dest ++ src) (kind ++ payload) (omega (arith, length-append dest src)))

  frame_ethertype : be16 ((dest ++ src ++ kind) ++ payload) 12 ≡ be16 (kind ++ payload) 0
  frame_ethertype = ap₂ (λ (h l : ℕ). h * 256 + l) (at_kind 0) (at_kind 1)
    where
      at_kind :
          (i : ℕ)
          → get_or ((dest ++ src ++ kind) ++ payload) (12 + i) 0 ≡ get_or (kind ++ payload) i 0
      at_kind i =
          sym (get_or-drop 12 ((dest ++ src ++ kind) ++ payload) i 0)
          ∙ ap (λ (l : List ℕ). get_or l i 0) frame_kind

pub length-padding : (len : ℕ) → length (padding len) + 14 + len ≡ frame_length len
length-padding len = ground (arith, length-replicate {A = ℕ} (frame_length len - 14 - len) 0)

abbrev two_bytes : ℕ → List ℕ
two_bytes n = n / 256 % 256 ∷ n % 256 ∷ []

pub length-eth_header :
    (dest src payload : List ℕ) (ethertype : ℕ)
    → length dest ≡ 6
    → length src ≡ 6
    → length (eth_header dest src ethertype ++ payload) ≡ 14 + length payload
length-eth_header dest src payload ethertype six_dest six_src = rw (take_all 6 dest (omega arith)) (
    rw (take_all 6 src (omega arith))
      (frame_length_lem dest src (two_bytes ethertype) payload six_dest six_src refl))

-- A frame is handed on with the type and the payload that it was built from.
pub eth_header-ethernet_input :
    (dest src payload : List ℕ) (ethertype : ℕ) (promiscuous : Bool) (members : List MulticastEntry)
    (receiver : Interface)
    → length dest ≡ 6
    → length src ≡ 6
    → ethertype < 65536
    → frame_for_us members receiver dest ≡ true
    → ethernet_input promiscuous members receiver (eth_header dest src ethertype ++ payload)
      ≡ upper receiver ethertype payload
unfolding ethernet_input
eth_header-ethernet_input dest src payload ethertype promiscuous members receiver six_dest six_src
      word ours =
    rw (take_all 6 dest (omega arith)) (
      rw (take_all 6 src (omega arith)) (
        rw long (
          rw (frame_dest dest src kind payload six_dest six_src refl) (
            rw ours (
              ap₂ (upper receiver) same_type
                (frame_payload dest src kind payload six_dest six_src refl))))))
  where
    kind : List ℕ
    kind = two_bytes ethertype

    long : ltb (length ((dest ++ src ++ kind) ++ payload)) 14 ≡ false
    long = rw (frame_length_lem dest src kind payload six_dest six_src refl) (ground arith)

    same_type : be16 ((dest ++ src ++ kind) ++ payload) 12 ≡ ethertype
    same_type = frame_ethertype dest src kind payload six_dest six_src refl ∙ omega (arith, word)
