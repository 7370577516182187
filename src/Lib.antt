-- ===== src/Lib.antt =====
-- Verification of the Continuum kernel of LimitlessOS and of its network stack Harmony, written in C
-- under continuum/ and harmony/.
--
-- The kernel keeps a registry of quanta (its threads; continuum_core.c), schedules them by priority
-- (temporal_scheduler.c), and lets them exchange messages through conduits, named bounded queues of
-- bytes (conduit_ipc.c). A conduit keeps its messages in a ring buffer and the quanta that wait for it
-- in two wait queues; waiting and waking call the scheduler's `temporal_block`, `temporal_yield` and
-- `temporal_unblock`. Memory comes from physical pages and a buddy allocator (flux_memory.c). The network
-- stack has a layer for IPv4 (ip.c), which finds the route of a packet, a cache of hardware addresses
-- (arp.c), and the protocols TCP and UDP (tcp.c, udp.c) above it.
--
-- Files:
--   Prelude                  lists, stores and numbers that all parts share
--   Temporal/Quantum         the data of temporal_scheduler.h and continuum_core.h
--   Temporal/Queue           `queue_init`, `queue_enqueue`, `queue_dequeue`, `queue_remove`;
--                            Temporal/Queue/* the linked queues against lists of quanta
--   Temporal/Core            `select_next_quantum`, `temporal_schedule`, `temporal_enqueue`,
--                            `temporal_yield`, `temporal_block`, `temporal_unblock`,
--                            `temporal_remove_quantum`
--   Temporal/Ready           what the five ready queues keep together
--   Temporal/Select, Enqueue, Schedule, Operations, Order, Losses
--                            the operations against the specification of the lists
--   Temporal/Control         `temporal_init`, `temporal_start`, `temporal_stop`, `temporal_tick`,
--                            `temporal_balance_load`, `temporal_get_stats`
--   Conduit/Ring             `ringbuf_init`, `ringbuf_destroy`, `ringbuf_write`, `ringbuf_read`,
--                            `ringbuf_peek`; Conduit/Ring/* their bytes
--   Conduit/Message          the bytes of `conduit_message_t`
--   Conduit/WaitQueue        `waitqueue_init`, `waitqueue_add`, `waitqueue_remove`, `waitqueue_wake_all`
--   Conduit/Endpoint, Reader `conduit_send`, `conduit_receive`, `conduit_peek`
--   Conduit/Stream, Delivery a ring as a stream of messages
--   Conduit/Fifo, Exchange   runs of calls against a queue of byte strings
--   Conduit/Registry         `hash_name`, `strncpy`, `conduit_init`, `conduit_create`, `conduit_open`,
--                            `conduit_close`; Conduit/Registry/* the tables
--   Conduit/Broadcast        `strstr`, `conduit_broadcast`, `conduit_get_stats`,
--                            `conduit_get_global_stats`
--   Flux/Pages               `phys_alloc_page`, `phys_free_page`, the bitmap part of `flux_init`
--   Flux/Buddy               `buddy_alloc`, `buddy_free`
--   Flux/Slab                `slab_init_cache`, `slab_create`, `slab_alloc`, `slab_free`; Flux/Slab/* the free
--                            objects
--   Flux/Translate           `flux_translate_address`
--   Flux/Compress            `compress_page`, `decompress_page`, `flux_compress_page`; Flux/Compress/Restore
--                            what is restored
--   Kernel                   `continuum_create_quantum`, `continuum_terminate_quantum`,
--                            `continuum_get_quantum`; Kernel/* the registry as a set of numbers
--   Kernel/Hints             `temporal_update_ai_hints`
--   Kernel/Request           `continuum_handle_request`, `handle_native_request`
--   Harmony/Checksum         `ip_checksum` (harmony/ip.c) and the sums of TCP and UDP
--   Harmony/Ip               interfaces, routes and headers of harmony/ip.c; Harmony/Ip/Packets
--                            `ip_input`, `ip4_input`, `ip_send`; Harmony/Ip/Routing, Exchange the proofs
--   Harmony/Arp              the cache and the requests of harmony/arp.c; Harmony/Arp/Calls its other
--                            calls; Harmony/Arp/Cache, Waiting the proofs
--   Harmony/Tcp              the connections of harmony/tcp.c; Harmony/Tcp/Input `tcp_input` and its
--                            handlers, Harmony/Tcp/Calls the socket interface; Harmony/Tcp/Diagram,
--                            Sending, Segments the proofs
--   Harmony/Udp              the sockets of harmony/udp.c; Harmony/Udp/Bind, Datagram the proofs
--   Harmony/Ethernet         harmony/ethernet.c; Harmony/Ethernet/Frame, Carried a frame from one
--                            interface to another, Harmony/Ethernet/Members the multicast list
--   Harmony/Icmp             harmony/icmp.c; Harmony/Icmp/Ping a ping and its reply
--   Harmony/Dhcp             the client of harmony/dhcp.c; Harmony/Dhcp/Calls its handlers
--                            and the timer, Harmony/Dhcp/Machine its states, Harmony/Dhcp/Lease a lease
--   Harmony/Hosts            two hosts, for the concrete instances
--   Temporal/Tests, Conduit/Tests, Flux/Tests, Kernel/Tests, Harmony/Tests,
--   Harmony/Ethernet/Tests, Harmony/Icmp/Tests, Harmony/Dhcp/Tests
--                            concrete instances
--
-- State and operations. A pointer is a number, and what it leads to is a store from numbers to records,
-- so aliasing is as in C; NULL is `none`. The globals of a file are one record, `Scheduler`, `Tables`,
-- `Physical`, `Buddies` or `Kernel`, and a call is a function from it to it. `Endpoint` is the part of
-- them that a call on one conduit uses. Sizes and counters wrap at 2 ^ 32 or 2 ^ 64 as their types do.
-- The time stamp counter is a sequence of readings. What other quanta do while a caller waits is an
-- argument, any function on the state, and so is what `flux_allocate` returns. The network stack gives
-- packets as lists of bytes; what it hands to a driver or to a function that no file defines is a value,
-- or the function is an argument. Its clock gives one reading in a call.
--
-- Bounds and fuel. `waitqueue_wake_all` runs on fuel, one round more than the queue counts; a theorem
-- says that this is enough. All other loops count down a bound of the code. The test for room in
-- `conduit_send` is exact for rings of at most half of the address space, which `IsValid` asks for. The
-- counts of the ready queues are exact below 2 ^ 32.
--
-- Not modelled: the spin locks (each locked section is one step), saving and loading registers
-- (assembly), `conduit_select`, memory domains and changes of page tables, the handlers of foreign
-- system requests, the network thread and the socket calls, the drivers and the services in user
-- space.
pub mod Prelude
pub mod Conduit
pub mod Temporal
pub mod Flux
pub mod Kernel
pub mod Harmony
