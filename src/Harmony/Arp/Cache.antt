-- ===== src/Harmony/Arp/Cache.antt =====
-- The cache of harmony/arp.c as a table of addresses that expire.
use limitless_os.Prelude.{
  ℕ, ◌-◌, ◌≤◌, ◌<◌, ◌≡◌, ◌≢◌, refl, ap, sym, ◌∙◌, Bool, true, false, ◌&&◌, Option, none, some, List,
  [], ◌∷◌, update_at, update_ne, ltb, ◌==◌, ℕ_discrete, if◌then◌else◌, arith, Bool-cases, inl, inr,
  ==_ne,
}
use limitless_os.Temporal.Quantum.{word64}
use limitless_os.Harmony.Ip.{Interface}
use limitless_os.Harmony.Arp.{
  Entry, Arp, EthFrame, arp_hash, age, cache_timeout, new_entry, renew, onto, stored, store_chain,
  arp_add_entry, resolve_chain,
}
use limitless_os.Harmony.Arp.Calls.{keep_entries, arp_timer_tick, resolved, arp_resolve}

-- What the loop of `arp_resolve` finds in a chain.
abbrev pub found_in : ℕ → ℕ → List Entry → Option (List ℕ)
found_in now ip chain = (resolve_chain now ip chain).1

-- What `arp_resolve` finds.
abbrev pub known : ℕ → Arp → ℕ → Option (List ℕ)
known now s ip = found_in now ip (s.cache (arp_hash ip))

-- The first valid entry of the address that has not expired is found.
abbrev answers : ℕ → ℕ → Entry → Bool
answers now ip e = (e.ip_addr == ip && e.valid) && ltb (age now e.timestamp) cache_timeout

found_in-cons :
    (now ip : ℕ) (e : Entry) (rest : List Entry)
    → found_in now ip (e ∷ rest)
      ≡ (if answers now ip e then some e.mac_addr else found_in now ip rest)
unfolding resolve_chain
found_in-cons now ip e rest = ground arith

-- What a chain with one entry renewed finds: the new address, and for all others what it found before.
abbrev Learnt : ℕ → ℕ → List ℕ → List Entry → List Entry → Type 0
Learnt later ip mac chain renewed =
    (found_in later ip renewed ≡ some mac)
    × ((other : ℕ) → other ≢ ip → found_in later other renewed ≡ found_in later other chain)

abbrev LearntIf : ℕ → ℕ → List ℕ → List Entry → Option (List Entry) → Type 0
LearntIf later ip mac chain none = Unit {0}
LearntIf later ip mac chain (some renewed) = Learnt later ip mac chain renewed

-- An entry in front that is renewed, a new one, and one of another address.
module _ (later ip : ℕ) (mac : List ℕ) (rest : List Entry) where
  front-Learnt :
      (now : ℕ) (chain : List Entry)
      → age later now < cache_timeout
      → ((other : ℕ) → other ≢ ip → found_in later other rest ≡ found_in later other chain)
      → Learnt later ip mac chain (new_entry now ip mac ∷ rest)
  front-Learnt now chain young same = (
    ground (arith, found_in-cons later ip (new_entry now ip mac) rest),
    λ other ne. found_in-cons later other (new_entry now ip mac) rest ∙ ground (arith, same other),
  )

  onto-LearntIf :
      (x : Entry) (r : Option (List Entry))
      → (x.ip_addr == ip) ≡ false
      → LearntIf later ip mac rest r
      → LearntIf later ip mac (x ∷ rest) (onto x r)
  onto-LearntIf x none other l = tt
  onto-LearntIf x (some renewed) differs (new, same) = (
    ground (arith, found_in-cons later ip x renewed),
    λ other ne.
        ground (
          arith,
          found_in-cons later other x renewed,
          found_in-cons later other x rest,
          same other,
        ),
  )

renew-LearntIf :
    (now later ip : ℕ) (mac : List ℕ) (chain : List Entry)
    → age later now < cache_timeout
    → LearntIf later ip mac chain (renew now ip mac chain)
unfolding renew
renew-LearntIf now later ip mac [] young = tt
renew-LearntIf now later ip mac (x ∷ rest) young = elim (Bool-cases (x.ip_addr == ip)) [
  | inl same ↦
      let renewed : Entry = record x { mac_addr = mac; timestamp = now; valid = true } in
      rw same (
        ground (arith, found_in-cons later ip renewed rest),
        λ other ne.
            ground
              (arith, found_in-cons later other renewed rest, found_in-cons later other x rest),
      )
  | inr differs ↦ rw differs (
      onto-LearntIf later ip mac rest x (renew now ip mac rest) differs
        (renew-LearntIf now later ip mac rest young))
]

-- The chain that `arp_add_entry` stores.
stored-LearntIf :
    (allocated : Bool) (now later ip : ℕ) (mac : List ℕ) (chain : List Entry)
    (r : Option (List Entry))
    → age later now < cache_timeout
    → LearntIf later ip mac chain r
    → LearntIf later ip mac chain (stored allocated now ip mac chain r)
stored-LearntIf allocated now later ip mac chain (some renewed) young l = l
stored-LearntIf true now later ip mac chain none young l =
    front-Learnt later ip mac chain now chain young (λ other ne. refl)
stored-LearntIf false now later ip mac chain none young l = tt

-- What `arp_resolve` finds after `arp_add_entry`.
store_chain-known :
    (frame_memory : ℕ → Bool) (at : ℕ → Interface) (later ip : ℕ) (mac : List ℕ) (s : Arp)
    (r : Option (List Entry)) (other : ℕ)
    → LearntIf later ip mac (s.cache (arp_hash ip)) r
    → (store_chain frame_memory at ip mac s r).1 ≡ 0
    → known later (store_chain frame_memory at ip mac s r).0 other
      ≡ (if other == ip then some mac else known later s other)
unfolding store_chain
store_chain-known frame_memory at later ip mac s none other l ok = absurd (omega (arith, ok))
store_chain-known frame_memory at later ip mac s (some chain) other (new, same) ok =
    elim (ℕ_discrete other ip) [
      | yes e ↦
          ap (found_in later other)
            (update_at s.cache (arp_hash ip) chain (arp_hash other) (ap arp_hash e))
          ∙ ap (λ (k : ℕ). found_in later k chain) e
          ∙ new
          ∙ ground arith
      | no ne ↦ elim (ℕ_discrete (arp_hash other) (arp_hash ip)) [
        | yes e ↦
            ap (found_in later other) (update_at s.cache (arp_hash ip) chain (arp_hash other) e)
            ∙ same other ne
            ∙ ap (λ (h : ℕ). found_in later other (s.cache h)) (sym e)
            ∙ rw (==_ne other ip ne) refl
        | no apart ↦
            ap (found_in later other) (update_ne s.cache (arp_hash ip) chain (arp_hash other) apart)
            ∙ rw (==_ne other ip ne) refl
      ]
    ]

resolved-answer :
    (first second : Bool) (answer : EthFrame → ℕ) (at : ℕ → Interface) (now iface ip : ℕ) (s : Arp)
    (found : Option (List ℕ))
    → (resolved first second answer at now iface ip s found).1 ≡ found
unfolding resolved
resolved-answer first second answer at now iface ip s (some mac) = refl
resolved-answer first second answer at now iface ip s none = refl

-- The answer of `arp_resolve`.
arp_resolve-known :
    (first second : Bool) (answer : EthFrame → ℕ) (at : ℕ → Interface) (now iface ip : ℕ) (s : Arp)
    → (arp_resolve first second answer at now iface ip s).1 ≡ known now s ip
unfolding arp_resolve
arp_resolve-known first second answer at now iface ip s =
    resolved-answer first second answer at now iface ip _ (known now s ip)

-- Where an address was added, resolving it finds what was added until the entry expires, and
-- every other address is resolved as before.
pub arp_add_entry_lem :
    (allocated : Bool) (frame_memory : ℕ → Bool) (at : ℕ → Interface) (now ip : ℕ) (mac : List ℕ)
    (s : Arp) (first second : Bool) (answer : EthFrame → ℕ) (later iface other : ℕ)
    → let added = arp_add_entry allocated frame_memory at now ip mac s in
      added.1 ≡ 0
      → age later now < cache_timeout
      → (arp_resolve first second answer at later iface other added.0).1 ≡ (
          if other == ip
          then some mac
          else (arp_resolve first second answer at later iface other s).1)
unfolding arp_add_entry
arp_add_entry_lem allocated frame_memory at now ip mac s first second answer later iface other ok
      young =
    let chain = s.cache (arp_hash ip) in
    arp_resolve-known first second answer at later iface other _
    ∙ store_chain-known frame_memory at later ip mac s
        (stored allocated now ip mac chain (renew now ip mac chain)) other
        (stored-LearntIf allocated now later ip mac chain _ young
          (renew-LearntIf now later ip mac chain young))
        ok
    ∙ ap (λ (o : Option (List ℕ)). if other == ip then some mac else o)
        (sym (arp_resolve-known first second answer at later iface other s))

abbrev pub StampedBy : ℕ → List Entry → Type 0
StampedBy now [] = Unit {0}
StampedBy now (e ∷ rest) = (e.timestamp ≤ now) × StampedBy now rest

abbrev pub NotExpired : ℕ → List Entry → Type 0
NotExpired now [] = Unit {0}
NotExpired now (e ∷ rest) = (now - e.timestamp ≤ cache_timeout) × NotExpired now rest

keep_entries-found :
    (now later ip : ℕ) (chain : List Entry)
    → StampedBy now chain
    → now ≤ later
    → later < word64
    → (found_in later ip (keep_entries now chain) ≡ found_in later ip chain)
      × NotExpired now (keep_entries now chain)
unfolding keep_entries
keep_entries-found now later ip [] stamped order w = (refl, tt)
keep_entries-found now later ip (e ∷ rest) (stamp, stamped) order w =
    let (same, young) = keep_entries-found now later ip rest stamped order w in
    elim (Bool-cases (ltb cache_timeout (age now e.timestamp))) [
      | inl old ↦
          let expired : ltb (age later e.timestamp) cache_timeout ≡ false = ground arith in
          let passed : (if answers later ip e then some e.mac_addr else found_in later ip rest)
              ≡ found_in later ip rest =
            ground arith in
          rw old (same ∙ sym (found_in-cons later ip e rest ∙ passed), young)
      | inr kept ↦ rw kept (
        found_in-cons later ip e (keep_entries now rest)
            ∙ ap (λ (o : Option (List ℕ)). if answers later ip e then some e.mac_addr else o) same
            ∙ sym (found_in-cons later ip e rest),
        (ground arith, young),
      )
    ]

-- Where no entry is stamped later than now, the timer leaves no entry that has expired, and no
-- later answer of arp_resolve is changed by it.
pub arp_timer_tick_lem :
    (now later iface ip : ℕ) (s : Arp) (first second : Bool) (answer : EthFrame → ℕ)
    (at : ℕ → Interface)
    → ((hash : ℕ) → StampedBy now (s.cache hash))
    → now ≤ later
    → later < word64
    → ((arp_resolve first second answer at later iface ip (arp_timer_tick now s)).1
        ≡ (arp_resolve first second answer at later iface ip s).1)
      × ((hash : ℕ) → NotExpired now ((arp_timer_tick now s).cache hash))
unfolding arp_timer_tick
arp_timer_tick_lem now later iface ip s first second answer at stamped order w = (
  arp_resolve-known first second answer at later iface ip (arp_timer_tick now s)
      ∙ (keep_entries-found now later ip (s.cache (arp_hash ip)) (stamped (arp_hash ip)) order w).0
      ∙ sym (arp_resolve-known first second answer at later iface ip s),
  λ hash. (keep_entries-found now later ip (s.cache hash) (stamped hash) order w).1,
)
