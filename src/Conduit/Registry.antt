-- ===== src/Conduit/Registry.antt =====
-- The table of conduits of continuum/conduit_ipc.c: `conduit_init`, `conduit_create`, `conduit_open`
-- and `conduit_close`. A pointer to a conduit is a number into `store`. A C string is the list of its
-- characters before the zero, each a byte.
pub mod Names
pub mod Closing
use limitless_os.Prelude.{
  ℕ, zero, suc, ◌+◌, ◌-◌, ◌*◌, ◌/◌, ◌%◌, ◌^◌, Bool, true, false, not, ◌||◌, Option, none, some,
  List, [], ◌∷◌, ltb, ◌==◌, if◌then◌else◌, update,
}
use limitless_os.Temporal.Quantum.{Scheduler, word32}
use limitless_os.Temporal.Core.{points_to}
use limitless_os.Conduit.Ring.{sub_size, ringbuf_init, ringbuf_destroy}
use limitless_os.Conduit.WaitQueue.{WaitQueue, waitqueue_init, waitqueue_wake_all}
use limitless_os.Conduit.Endpoint.{Conduit, ConduitState, Registry, is_open}

abbrev pub max_conduits : ℕ
max_conduits = 1024

abbrev pub name_hash_size : ℕ
name_hash_size = 256

abbrev pub conduit_name_max : ℕ
conduit_name_max = 64

-- A `char` is signed: what it adds to a 32-bit number.
abbrev pub char_value : ℕ → ℕ
char_value c = if ltb c 128 then c else c + word32 - 256

abbrev pub hash_loop : ℕ → List ℕ → ℕ
hash_loop hash [] = hash
hash_loop hash (c ∷ name) =
    hash_loop ((((hash * 32) % word32 + hash) % word32 + char_value c) % word32) name

unfoldable pub hash_name : List ℕ → ℕ
hash_name name = hash_loop 5381 name % name_hash_size

-- The loop of `strncpy`, for at most so many characters.
abbrev pub copy_loop : ℕ → List ℕ → List ℕ
copy_loop zero src = []
copy_loop (suc n) [] = []
copy_loop (suc n) (c ∷ src) = c ∷ copy_loop n src

-- The string that is in `dest` afterwards.
unfoldable pub strncpy : List ℕ → ℕ → List ℕ
strncpy src n = copy_loop (sub_size n 1) src

-- An entry of `g_name_table`.
pub record NameEntry : Type 0 where
  pub name : List ℕ
  pub conduit : Option ℕ

-- The globals of the file, with the conduits that pointers lead to and the scheduler.
pub record Tables : Type 0 where
  pub conduits : ℕ → Option ℕ
  pub name_table : ℕ → NameEntry
  pub store : ℕ → Conduit
  pub registry : Registry
  pub sched : Scheduler

abbrev pub no_name : NameEntry
no_name = record { name = []; conduit = none }

unfoldable pub conduit_init : Tables → Tables
conduit_init t =
    let registry = t.registry in
    record t {
      conduits = λ i. if ltb i max_conduits then none else t.conduits i;
      name_table = λ i. if ltb i name_hash_size then no_name else t.name_table i;
      registry = record registry { initialized = true };
    }

-- The first slot of `conduits` from `i` on that is free, among so many.
abbrev pub find_slot : (ℕ → Option ℕ) → ℕ → ℕ → Option ℕ
find_slot conduits i zero = none
find_slot conduits i (suc n) = elim (conduits i) [
  | none ↦ some i
  | some p ↦ find_slot conduits (suc i) n
]

-- The conduit that `conduit_create` sets up in the slot `id`.
abbrev pub new_conduit : ℕ → List ℕ → ℕ → ℕ → Option (List ℕ) → Conduit
new_conduit id name buffer_size owner block = record {
  id = id;
  name = strncpy name (conduit_name_max - 1);
  state = ConduitState.open_state;
  messages = ringbuf_init block buffer_size;
  buffer_size = buffer_size;
  max_message_size = buffer_size / 4;
  owner_qid = owner;
  ref_count = 1;
  readers = waitqueue_init;
  writers = waitqueue_init;
  stats = record { messages_sent = 0; messages_received = 0; bytes_sent = 0; bytes_received = 0 };
}

abbrev pub register : Tables → ℕ → ℕ → List ℕ → Conduit → Tables
register t id p name c =
    let registry = t.registry in
    record t {
      conduits = update t.conduits id (some p);
      name_table =
          update t.name_table (hash_name name)
            (record { name = strncpy name (conduit_name_max - 1); conduit = some p });
      store = update t.store p c;
      registry = record registry { conduit_count = (registry.conduit_count + 1) % word32 };
    }

-- The part of `conduit_create` behind the check of the name. `allocated` is what `flux_allocate`
-- returns for the structure, and `block` what it returns for the ring.
abbrev pub create_in :
    Tables → List ℕ → ℕ → ℕ → Option ℕ → Option (List ℕ) → Option ℕ → Option ℕ × Tables
create_in t name buffer_size self allocated block none = (none, t)
create_in t name buffer_size self allocated block (some id) = elim allocated [
  | none ↦ (none, t)
  | some p ↦ (
    some p,
    register t id p name (new_conduit id name buffer_size (t.sched.quanta self).qid block),
  )
]

abbrev pub create_named :
    Tables → List ℕ → ℕ → ℕ → Option ℕ → Option (List ℕ) → Option ℕ → Option ℕ × Tables
create_named t name buffer_size self allocated block (some q) = (none, t)
create_named t name buffer_size self allocated block none =
    create_in t name buffer_size self allocated block (find_slot t.conduits 0 max_conduits)

unfoldable pub conduit_create :
    Tables → Option (List ℕ) → ℕ → ℕ → Option ℕ → Option (List ℕ) → Option ℕ × Tables
unfolding hash_name strncpy
conduit_create t none buffer_size self allocated block = (none, t)
conduit_create t (some name) buffer_size self allocated block =
    if buffer_size == 0
    then (none, t)
    else create_named t name buffer_size self allocated block
        (t.name_table (hash_name name)).conduit

abbrev pub open_found : Tables → Option ℕ → Option ℕ × Tables
open_found t none = (none, t)
open_found t (some p) =
    let c = t.store p in
    if is_open c.state
    then (
      some p,
      record t { store = update t.store p (record c { ref_count = (c.ref_count + 1) % word32 }) },
    )
    else (none, t)

unfoldable pub conduit_open : Tables → Option (List ℕ) → Option ℕ × Tables
unfolding hash_name
conduit_open t none = (none, t)
conduit_open t (some name) = open_found t (t.name_table (hash_name name)).conduit

-- `conduit_close` where the last reference goes. The result is missing where waking does not end.
abbrev pub forget_name : (ℕ → NameEntry) → ℕ → ℕ → ℕ → NameEntry
forget_name names hash p =
    if points_to (names hash).conduit p then update names hash no_name else names

abbrev pub unregister : Tables → ℕ → Conduit → Scheduler → Tables
unregister t p c s =
    let registry = t.registry in
    record t {
      conduits = update t.conduits c.id none;
      name_table = forget_name t.name_table (hash_name c.name) p;
      store = update t.store p (record c { messages = ringbuf_destroy c.messages });
      registry = record registry { conduit_count = (registry.conduit_count + word32 - 1) % word32 };
      sched = s;
    }

abbrev pub wake_both :
    WaitQueue → WaitQueue → Scheduler → Option (WaitQueue × WaitQueue × Scheduler)
wake_both readers writers s = elim (waitqueue_wake_all readers s) [
  | none ↦ none
  | some (readers', s') ↦ elim (waitqueue_wake_all writers s') [
    | none ↦ none
    | some (writers', s'') ↦ some (readers', writers', s'')
  ]
]

abbrev pub close_last : Tables → ℕ → Conduit → Option Tables
close_last t p c = elim (wake_both c.readers c.writers t.sched) [
  | none ↦ none
  | some (readers, writers, s) ↦ some (
      unregister t p
        (record c { state = ConduitState.closing; readers = readers; writers = writers }) s)
]

abbrev pub drop_reference : Conduit → Conduit
drop_reference c = record c { ref_count = (c.ref_count + word32 - 1) % word32 }

unfoldable pub conduit_close : Tables → Option ℕ → Option Tables
unfolding hash_name waitqueue_wake_all ringbuf_destroy
conduit_close t none = some t
conduit_close t (some p) =
    let c = drop_reference (t.store p) in
    if c.ref_count == 0 then close_last t p c else some (record t { store = update t.store p c })
