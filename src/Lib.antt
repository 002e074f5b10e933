-- ===== src/Lib.antt =====
-- A model of u80211, a portable 802.11 layer, with theorems about it.
--
-- The program is a set of C files that a kernel links in. A driver hands received frames to
-- `u80211_process_packet`; the kernel calls `u80211_associate`, `u80211_scan` and the like from its
-- threads; timers and work items call back into the association and scan code. The parts share one
-- `struct u80211_device` under spinlocks: the key table under one, the scan state under another,
-- the association state under a third.
--
-- - Common: machine words, byte buffers as lists of numbers below 256, status codes
--   (include/u80211/util.h, include/u80211/status.h, src/string.c).
-- - Packet, Packet/Header, Packet/Serialize: addresses, header descriptions, the transmit buffer
--   descriptor, `u80211_deserialize_header` and `u80211_serialize_header` (src/packet.c,
--   include/u80211/packet.h). Packet/RoundTrip has the proofs.
-- - Michael: src/michael.c, function by function; Michael/Stream, Michael/Half and
--   Michael/Reference compare it with the algorithm on a whole message, Michael/Rotations its block
--   function with the one of the standard.
-- - Key, Key/Table, Key/Rx, Key/Tx: the key table, selection, replay counters and packet numbers of
--   src/key.c. Key/Sequence, Key/Identity, Key/Find, Key/Replay, Key/Nonce and Key/Mic have the
--   proofs.
-- - Ringbuffer: src/ringbuffer.c. Ringbuffer/Window and Ringbuffer/Refine compare it with a queue of
--   bytes.
-- - Association, Association/Handlers, Association/System: the part of `struct u80211_device` that
--   src/association.c keeps, one function for each of its locked sections, and the system in which
--   they interleave in any order. Association/Duplicate is the filter of retransmitted frames,
--   Association/Allocation what `u80211_associate` allocates and frees. Association/Invariant,
--   Association/Refs, Association/Cleanup, Association/Diagram and Association/Faults have the
--   proofs.
-- - Scan: the choice of channels of src/scan.c on the table of src/regulatory_database.c;
--   Scan/Channels has the proofs. Scan/Session is the ring of beacon records between
--   `u80211_scan_process_response` and the loop of `scan_work`, Scan/Run the rest of the scan from
--   `u80211_scan` to its cleanup, Scan/System the system in which its calls, work and responses
--   follow one another. Scan/Records, Scan/Queue, Scan/Arrivals, Scan/Rounds, Scan/Allocation,
--   Scan/Consistency, Scan/Waiters and Scan/Ends have the proofs.
-- - Management, Management/Dispatch, Management/Send: the information elements, the rates, the
--   handlers of received management frames and the frames that are sent
--   (src/packet_management.c). Management/Elements, Management/Rates, Management/Safe,
--   Management/Sent, Management/Authentication, Management/Requests and Management/Once have the
--   proofs.
-- - Receive: `u80211_process_packet` with the cipher headers (src/packet.c) and
--   `u80211_process_data_packet` (src/packet_data.c); Receive/Safe and
--   Receive/Counter have the proofs.
-- - Transmit: `u80211_allocate_tx_buffer` and `u80211_transmit_buffer` (src/packet_data.c). What the
--   driver is asked to do is a list of calls. Transmit/Frame, Transmit/Ciphers, Transmit/Tailroom and
--   Transmit/TkipKeys have the lemmas; Transmit/Bounds, Transmit/RoundTrip, Transmit/Encrypted, Transmit/Received and
--   Transmit/Tkip compare what is sent with what the receive path makes of it, and Transmit/Once counts
--   the calls of the driver.
-- - Rbtree, Rbtree/Insert, Rbtree/Remove: the red-black tree of src/rbtree.c and
--   include/u80211/rbtree.h. A pointer to a node is the node's subtree with the chain of its parents,
--   so that a step along a parent pointer takes one link off the chain and a rotation exchanges two;
--   an access through a null pointer is `none`. Rbtree/Sequence and its children are about the
--   values in order, Rbtree/Search about lookups, Rbtree/Balance and its children about colours and
--   heights, Rbtree/Order and Rbtree/Order/Laws about search trees.
-- - BssCache: src/bss_cache.c on that tree, with the reference counts of include/u80211/ap.h and the
--   lock. The address of an access point's structure stands for it. BssCache/Compare, /Entries,
--   /Access, /Pointers, /Inserting, /Removing, /Finding, /Listing, /Purge and /Scanned have the proofs;
--   the last is about the use that `scan_work` makes of it.
-- - LinkedList: the intrusive lists of include/u80211/list.h, with their links as memory cells.
--   LinkedList/Refine and LinkedList/Removed compare them with sequences.
-- - Registration: src/device.c, with the setup of the key state and of the cache's lock.
-- - AccessPoint: src/ap.c.
-- - Tests: runs at concrete values.
--
-- Conventions. `size_t`, `uintmax_t` and pointers have 64 bits, `int` and `unsigned int` 32; the
-- wrap-around of unsigned words is written out. A byte that is read past the end of a buffer reads
-- as 0 and a write there is dropped; the theorems about buffers assume that they hold what the
-- caller announces. An intrusive list is the list of the records that it links, front first. What
-- the kernel and the driver answer (allocations, `set_key`, `del_key`) is an argument. One step of
-- the association system is one section that holds the association lock, or one stretch of code
-- outside it; the kernel is assumed not to run a work item in two threads at once, and a timeout may
-- come at any time with any context's address. A timeout reads the device from its context before it
-- takes the lock; that the context is still allocated then is not modelled. One step of the scan
-- system is a whole call of `u80211_scan`, one response, or a whole run of `scan_work`, each with all
-- its locked sections and what lies between them (src/scan.c); a response between two of these
-- sections is not modelled. A work item is queued where the effects of a step ask for it. The
-- reference count of an access point and the number of entries of the cache are unbounded numbers.
--
-- Fuel. `next_channel_from` takes the number of channels that are left, which is the bound of the loop
-- in the source. `scanned_channels` takes fuel for the runs of the scan work; 15 is enough for a
-- scan from the first channel. The loop over information elements takes the number of bytes.
--
-- The loops of the cache over its entries take the number of rounds; as many as there are entries are
-- enough.
--
-- The loop of `scan_work` has 269 rounds (`record_rounds`): the ring holds 268 records at most.
--
-- Not modelled. `u80211_rbtree_check` (src/rbtree.c) changes nothing and returns nothing. The links of
-- the tree's nodes are not memory cells. The structure that a scan stores in its ring has the layout of an ABI with pointers of eight bytes. The
-- kernel interface (include/u80211/kernel_interface.h) is declarations only, and tests/ is a harness
-- for Linux.
pub mod Common
pub mod Packet
pub mod Michael
pub mod Key
pub mod Ringbuffer
pub mod Association
pub mod Scan
pub mod Management
pub mod Receive
pub mod Transmit
pub mod Rbtree
pub mod BssCache
pub mod LinkedList
pub mod Registration
pub mod AccessPoint
mod Tests
