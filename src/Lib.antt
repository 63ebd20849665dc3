-- ===== src/Lib.antt =====
-- librefw is a firewall: a kernel module (kernel/) whose two netfilter hooks drop and learn IPv4
-- packets, and a client in user space (src/, include/). This library models the filters of the
-- module, the messages between the two and the client's commands and listeners, and proves them
-- against abstract descriptions.
--
-- The parts and how they interact. A hook on incoming packets (kernel/src/hooks.c) asks the bogon
-- filter (kernel/src/bogon.c) about the source of each TCP packet and, while the flag of
-- kernel/src/state.c is set, hop-count filtering (kernel/src/hcf.c). A second hook, while the flag
-- is not set, queues a work item that learns the TTL of the source. Netlink commands replace the
-- bogon list and set the flag. Both filters keep a binary trie over the bits of addresses that
-- readers walk under RCU; writers publish a new root, and what it replaced is freed after a grace
-- period. A netlink command also replaces the hop-count tree. The kernel module multicasts new
-- addresses, messages and the packets that it accepted; the client keeps the addresses in a table,
-- prints the rest, and its commands are the netlink commands.
--
--   Base      shared names, Boolean tests, lists, C's int
--   Trie      abstract tries: `find`, `put`, the number of nodes that `put` adds
--   Mem       the slab caches' memory as an association list of nodes behind pointers, with reads and
--             writes that fault; Mem/Tree says when a memory holds a tree, Mem/Steps, Mem/Grow,
--             Mem/Build, Mem/Share and Mem/Free what a run that extends, builds, copies or frees a
--             tree leaves of the memory
--   Word      kernel/src/utils.c: bits and prefixes of an address
--   Netlink   kernel/include/nl_ops.h: the numbers, and messages as lists of attributes;
--             kernel/src/nl.c: Netlink/Multicast has lfw_make_multicast_msg, Netlink/Policy the
--             policies, Netlink/Family the family and lfw_nl_init; Netlink/Buffer has the calls that write a message, with their laws
--   Hcf       kernel/src/hcf.c, kernel/include/hcf_internal.h, one definition for each function of the
--             same name; clone_path, create_leaf and lookup_walk are loops of hcf_register_ip_work and
--             hcf_lookup_tree, and run_callbacks is the end of a grace period; Hcf/History has
--             hcf_register_ip_history, its loops history_walk, insert_entry and insert_history; Hcf/Log has
--             hcf_log_new_ip and hcf_build_log_msg; Hcf/System has hcf_init_state, hcf_free_state and
--             hcf_register_ip, and all of them as a step relation
--   Bogon     kernel/src/bogon.c, kernel/include/bogon.h in the same way; load_walk, load_prefix and
--             load_prefixes are the loops of lfw_load_bg_tree, fill_buffer that of lfw_bogon_set; Bogon/Init has
--             lfw_init_bg_state and lfw_free_bg_state. What the model counts as a fault is a crash or
--             undefined behaviour, such as the read past ip_path in the message after a prefix of 32 bits
--   State     kernel/src/state.c: the flag, and the record of all that the hooks read; State/Exchange
--             has the exchange of the state under RCU, as steps of its readers and writers
--   Hooks     kernel/src/hooks.c: the two hooks, on the fields of a packet that they and the packet
--             log read
--   Start     kernel/src/mod.c, lfw_init_state and lfw_free_state of kernel/src/state.c, the registration in
--             kernel/src/hooks.c: the resources that a start acquires and releases; Start/Boot has
--             lfw_mod_init with the initialisations of the subsystems in place of their codes, and
--             lfw_mod_exit with the release of the packet log
--   Commands  kernel/src/nl.c: lfw_nl_ops, the handlers by their commands
--   Service   the module from its start on, as a step relation over the hooks, the work items, the
--             callbacks of both filters and the commands, one after another
--   Log       kernel/src/log.c
--   PacketLog kernel/src/log/packet_filter.c: the counters of the CPUs; PacketLog/Page has
--             process_rb_page, its loop page_loop, PacketLog/Flush the work item, PacketLog/Init the
--             initialisation and the release
--   Client    src/nl/: Client/Command has command.cpp, Client/Hcf hcf.cpp, with its table in
--             Client/Hcf/Kept, Client/Log log.cpp, Client/PacketFilter packet_filter_log.cpp, with src/util.cpp
--             in Client/PacketFilter/Printed, Client/Sockets base.cpp and include/nl/base.hpp;
--             Client/Main has src/main.cpp, which puts them together; Client/Text has the C++ string
--             functions
--   Tests     a concrete cache and states on which the theorems are instantiated
--
-- Parameters and hypotheses. A slab cache is a `Cache`: where the next node is, NULL or an address
-- that is not in use. `IsAmple` says that no allocation fails; theorems that need it name it. Whether
-- kzalloc and vzalloc succeed is a Boolean argument. A netlink message is the list of attributes
-- that the kernel's parser gives. `IsHcf` and `IsBogon` say that a state's memory holds a tree, each
-- node once; `IsHcf` also that the nodes which wait for callbacks are no part of it.
--
-- The netlink calls of the kernel and of libnl are the records `Writer`, `Genl` and `Socket`, and
-- `nla_parse`; what their documentation promises is in `IsLawful`, `IsParse` and `IsCheck`. The ring
-- buffer of the kernel is `Ring`, the pages that it hands out, and `Calls` for their release, with the
-- laws of `IsCalls`.
--
-- Bounds and fuel. The walks are recursions on the number of bits that remain: 24 for hop counts, 32 or
-- a prefix's length for bogons; nothing else bounds them. The functions that free a tree recurse on
-- fuel, the depth of the stack; they never go deeper than the tree is high, which
-- is 25 at most for hop counts and 33 for bogons. The loop over a page of the ring buffer is on fuel; one more than the
-- bytes of the page is enough, since every event has a length. Addresses are numbers
-- below 2 ^ 32 in host byte order, TTLs and hop counts below 2 ^ 8, and the machine is little-endian.
--
-- RCU is modelled by what it promises: a grace period ends when the readers that were inside of their
-- sections at its start have left. libnl's calls on sockets are the record `Libnl`, and the parser of
-- the command line, the files, the clocks and the database are the record `World`; the statement that
-- inserts a row is a parameter with the law `IsUnique`, that of the column's UNIQUE constraint under
-- sql/. The bytes of a message are in `Wire`, with the laws of `IsWire`.
--
-- Not modelled: the interleaving of a work item's end, after the mutex, with a history message or the
-- callback of a later work item, where its read of the new leaf may meet a freed node (in Hcf/System and
-- Service each step ends before the next begins); the messages of lfw_log in kernel/src/bogon.c, but
-- for the read past ip_path; the interleaving of a work item's own writes with readers (they meet the old tree or
-- the new one, which the theorems treat apart), the lock of kernel/src/state.c but for what it keeps
-- together, the rate-limited prints, the message that the handler of the flag logs, the copy of the
-- kernel's ring buffer (kernel/src/util/), which is Linux's; of the client the threads, the code that
-- declares the command line, the configuration of the database (src/db/) and the headers that are
-- generated from sql/.
pub mod Base
pub mod Mem
pub mod Trie
pub mod Word
pub mod Netlink
pub mod Hcf
pub mod Bogon
pub mod State
pub mod Hooks
pub mod Client
pub mod Commands
pub mod Log
pub mod PacketLog
pub mod Service
pub mod Start
pub mod Tests
