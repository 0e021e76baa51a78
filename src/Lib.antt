-- ===== src/Lib.antt =====
-- Verification library of hnetd, the home networking daemon.
--
-- hnetd runs HNCP, a profile of DNCP: the nodes of a home network flood their state with Trickle
-- timers, and the delegated prefixes that they learn are divided among the links by the distributed
-- prefix assignment algorithm. Prefixes and node identifiers are compared and copied by bits.
--
-- The parts and their files:
--
--   src/bitops.c: Bitops. Memory is a list of bytes, an address is an index into it, and the bits are
--   numbered from the highest bit of byte 0 on. `bbytecpy`, `bmemcpy` and `bmemcmp` are definitions of
--   these names, and Bitops/Hex has `hexlify` and `unhexlify`. A function that writes returns the
--   memory that it leaves. Of the C library's memcmp and memcpy the documented behaviour is used: the
--   bytes in turn, and the sign of the result.
--
--   src/pa_core.c and src/pa_core.h: Pa. A pointer to an ldp (a pair of a link and a delegated prefix),
--   a link, a delegated prefix or a rule is a number, and Pa/State holds the structures: `Core` is
--   `struct pa_core` with the objects it points to. The prefix tree is seen as what the core uses of it,
--   the advertised prefixes in a list and the assigned prefixes by the flags of the pairs; a walk up and
--   down from a prefix visits the entries that overlap it. Pa/Prefix has the macros on prefixes, Pa/Ldp
--   the functions on one pair (`pa_ldp_publish` is `publish`, and so on), Pa/Rules the rules and the
--   choice of the best one, Pa/Routine `pa_routine` in its four parts, Pa/Events the timers and the API
--   (`pa_dp_add` is `dp_add`, and so on), Pa/Routine/Override
--   `pa_rule_valid_assignment`, and Pa/System the timers and the API as steps of one machine.
--
--   src/pa_filters.c: Pa/Filters, the filters of rules as trees.
--
--   src/pa_rules.c: Pa/UserRules, the adopt and the static rule as rules of the core (the callbacks of
--   `struct pa_rule` are functions), and in Pa/UserRules/Candidates the candidate subset of the random rules.
--
--   src/pa_store.c and src/pa_store.h: Pa/Store, the cache of applied prefixes. A pointer to a cached prefix or
--   to a link of the store is a number, and a linked list is the list of its entries, the head first; what
--   reads the link behind a list's head that is not there gives none. `malloc` is an argument, the address
--   it returns or none. Pa/Store/Rule has the store's rule. The rule is what it is while the
--   store is as given; the store changes only when a prefix is applied, between two runs of the routine.
--
--   src/tlv.c and src/tlv.h: Tlv, the lengths, the order and the
--   sorting of TLVs (the C library's qsort is a parameter that sorts), and src/dncp_notify.c: Dncp/Notify,
--   the walk over two sets of TLVs that tells the subscribers what has changed, with subscribing and
--   unsubscribing in Dncp/Notify/Subscribe. A TLV is the list of its
--   bytes, and the pointer of a walk is the list of the TLVs that are left.
--
--   src/dncp_timeout.c: Dncp/Trickle, the Trickle and keep-alive timers of an endpoint or a peer, and, with
--   parts of src/dncp.c and src/dncp_i.h, Dncp/Graph: the nodes, their peer TLVs, and the pruning of the nodes
--   that the own node does not reach (`_prune_rec` is `prune_rec`, `dncp_prune` is `prune`, `dncp_node_set` is
--   `node_set`). What pruning only reads of the nodes is `Graph`, the rest of `struct dncp_struct` is `Net`.
--   Of libubox's vlist what the code relies on is used: `vlist_update` gives the list a version (an argument),
--   `vlist_add` gives it to a node, `vlist_flush` removes the nodes of another version. Dncp/Index, from
--   src/dncp.c, has the index by which the TLVs of a type are found; a pointer to a TLV is its place.
--   Dncp/Publish has the flush of the node's own TLVs (`dncp_self_flush` is `self_flush`); what the
--   subscribers' callbacks do to the local TLVs, and whether memory suffices, is an argument (`Outside`).
--
--   src/dncp_proto.c, with the hashes and the adding of nodes and peer TLVs of src/dncp.c and the reset of the
--   timers of src/dncp_timeout.c: Dncp/Proto. Its file has the state, `State`, and the hashes
--   (`dncp_calculate_network_hash` is `calculate_network_hash`), Dncp/Proto/Push what is put into a reply
--   (`_push_tlv` is `push_tlv`), and Dncp/Proto/Receive and Dncp/Proto/Message what a message does
--   (`handle_message`, `dncp_ext_readable` is `readable`). What is sent is recorded, the latest first. The hash
--   function, the memory for nodes and TLVs, what a flush meets and the handling of a collision are arguments
--   (`World`); Tlv/Buf has the buffers of src/tlv.c, for which memory suffices.
--
--   src/dncp_timeout.c, the rest of it: Dncp/Timeout, with the loops over the endpoints and the peers,
--   Dncp/Timeout/Run, the timeout itself (`dncp_ext_timeout` is `ext_timeout`), and Dncp/Timeout/Ready, which
--   enables and disables an endpoint. The timeout reads the clock at its start and at its end; both times are
--   arguments. A peer TLV of an endpoint that is not there is passed over, where the code would read a null
--   pointer.
--
-- How the code corresponds: numbers are natural, and a subtraction or a doubling on uint32_t is written
-- with its wrap-around. A timer of the event loop is the delay that it was last set to, or none if it
-- is not pending; that a timer fires is a step of the system, at any time while it is pending. Random
-- numbers, and whether the tree can allocate, come with each run as an environment (`Env`). The
-- callbacks of the users are recorded, the latest first, with the pair as it is at the call; a callback
-- that calls the core again is not modelled. The callbacks of the rules are functions of the core and
-- of the pair. Memory of a pair that is freed is kept, blank. Loops are recursions on a list or on a
-- number of bytes; the walks over the TLVs of a container or a buffer run on fuel, its length, the
-- pruning on the number of nodes, and `_push_tlv`, which calls itself for the endpoint's id, on two
-- calls; each is enough (for `_push_tlv`, if the endpoint's id fits into a buffer). Times in the timers
-- do not wrap around: they are 64-bit milliseconds in the code, and the clock is past the 2 ^ 32 ms
-- that a received node state can be old; the Trickle intervals, 32-bit there, stay below the configured
-- maximum.
--
-- Not modelled: the hierarchical assignment (`pa_ha_` in src/pa_core.c) but for the higher-level pair's
-- applied flag and link, the rest of src/bitops.c, src/tlv.c, src/dncp.c and src/dncp_notify.c, the
-- prefix tree itself, the random and hamming rules, the links of the store as they come and go and its
-- file, the TLVs that the users of DNCP publish and the creation of endpoints, the trust of DNCP, HNCP,
-- and all input and output.
pub mod Common
pub mod Bitops
pub mod Pa
pub mod Tlv
pub mod Dncp
