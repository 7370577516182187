-- ===== src/Harmony/Ethernet/Members.antt =====
-- The multicast list of harmony/ethernet.c.
use limitless_os.Prelude.{
  ℕ, ◌+◌, ◌%◌, ◌≡◌, refl, ap, Bool, true, false, Option, none, some, Bool-cases, inl, inr, List, [],
  ◌∷◌, ==_refl, ==_iff, ◌==◌, if◌then◌else◌, ap₂, ◌⊎◌, ◌∙◌,
}
use limitless_os.Temporal.Quantum.{word32}
use limitless_os.Harmony.Ip.{failure}
use limitless_os.Harmony.Ethernet.{
  MulticastEntry, same_bytes, ethernet_is_multicast_member, below, join_again, join_first,
  ethernet_join_multicast,
}

-- How often an address was joined.
abbrev pub joined_times : List MulticastEntry → List ℕ → ℕ
joined_times [] mac_addr = 0
joined_times (entry ∷ rest) mac_addr =
    let later = joined_times rest mac_addr in
    if same_bytes entry.mac_addr mac_addr then entry.ref_count else later

same_bytes-equal : (a b : List ℕ) → same_bytes a b ≡ true → a ≡ b
unfolding same_bytes
same_bytes-equal [] [] same = refl
same_bytes-equal [] (y ∷ b) same = absurd (cc same)
same_bytes-equal (x ∷ a) [] same = absurd (cc same)
same_bytes-equal (x ∷ a) (y ∷ b) same = elim (Bool-cases (x == y)) [
  | inl eq ↦
      ap₂ (λ (z : ℕ) (zs : List ℕ). z ∷ zs) ((==_iff x y).0 eq)
        (same_bytes-equal a b (rw eq at same))
  | inr ne ↦ absurd (cc (rw ne at same))
]

pub same_bytes_refl : (a : List ℕ) → same_bytes a a ≡ true
unfolding same_bytes
same_bytes_refl [] = refl
same_bytes_refl (x ∷ a) = rw (==_refl x) (same_bytes_refl a)

-- What a join of `mac` makes of the list: `mac` is a member, its count is one more, and nothing changes for
-- another address.
abbrev pub Joined : List ℕ → List MulticastEntry → List MulticastEntry → Type 0
Joined mac before after =
    (ethernet_is_multicast_member after mac ≡ true)
    × (joined_times after mac ≡ (joined_times before mac + 1) % word32)
    × ((other : List ℕ)
        → same_bytes mac other ≡ false
        → (ethernet_is_multicast_member after other ≡ ethernet_is_multicast_member before other)
          × (joined_times after other ≡ joined_times before other))

-- Either the address had no entry, or its entry is counted.
abbrev Again : List ℕ → List MulticastEntry → Option (List MulticastEntry) → Type 0
Again mac list none = joined_times list mac ≡ 0
Again mac list (some after) = Joined mac list after

apart :
    (entry : MulticastEntry) (mac other : List ℕ)
    → same_bytes entry.mac_addr mac ≡ true
    → same_bytes mac other ≡ false
    → same_bytes entry.mac_addr other ≡ false
apart entry mac other same differ =
    ap (λ (a : List ℕ). same_bytes a other) (same_bytes-equal entry.mac_addr mac same) ∙ differ

Again-below :
    (mac : List ℕ) (entry : MulticastEntry) (rest : List MulticastEntry)
    (r : Option (List MulticastEntry))
    → same_bytes entry.mac_addr mac ≡ false
    → Again mac rest r
    → Again mac (entry ∷ rest) (below entry r)
unfolding ethernet_is_multicast_member
Again-below mac entry rest none differ h = rw differ h
Again-below mac entry rest (some list) differ (member, times, others) = (
  rw differ member,
  rw differ times,
  λ other ne. let (m, t) = others other ne in (rw m refl, rw t refl),
)

join_again_lem : (mac : List ℕ) (list : List MulticastEntry) → Again mac list (join_again mac list)
unfolding join_again ethernet_is_multicast_member
join_again_lem mac [] = refl
join_again_lem mac (entry ∷ rest) = elim (Bool-cases (same_bytes entry.mac_addr mac)) [
  | inl same ↦
      rw same
        (rw same refl, rw same refl, λ other ne. (refl, rw (apart entry mac other same ne) refl))
  | inr differ ↦
      rw differ (Again-below mac entry rest (join_again mac rest) differ (join_again_lem mac rest))
]

join_first_lem :
    (allocated : Bool) (mac : List ℕ) (before : List MulticastEntry)
    (r : Option (List MulticastEntry))
    → Again mac before r
    → (((join_first allocated mac before r).1 ≡ 0)
        × Joined mac before (join_first allocated mac before r).0)
      ⊎ (join_first allocated mac before r ≡ (before, failure))
unfolding ethernet_is_multicast_member
join_first_lem allocated mac before (some after) h = inl (refl, h)
join_first_lem false mac before none h = inr refl
join_first_lem true mac before none h = inl (
  refl,
  (
    rw (same_bytes_refl mac) refl,
    rw (same_bytes_refl mac) (rw h refl),
    λ other ne. (rw ne refl, rw ne refl),
  ),
)

-- After a join that succeeds the address is a member and its count is one more, as a 32-bit word; every
-- other address keeps its membership and its count. A join that fails changes nothing.
pub ethernet_join_multicast_lem :
    (allocated : Bool) (mac : List ℕ) (before : List MulticastEntry)
    → (((ethernet_join_multicast allocated mac before).1 ≡ 0)
        × Joined mac before (ethernet_join_multicast allocated mac before).0)
      ⊎ (ethernet_join_multicast allocated mac before ≡ (before, failure))
unfolding ethernet_join_multicast
ethernet_join_multicast_lem allocated mac before =
    join_first_lem allocated mac before (join_again mac before) (join_again_lem mac before)
