-- ===== src/Lib.antt =====
-- A model of xstack.io, a user-space IP stack for Linux, and proofs about it.
--
-- A frame that `ether_receive` (src/linux/linux_ether.c) takes from the network goes through
-- `ether_input` (src/ether.c) to ARP (src/arp.c) or IP (src/ip.c), and from IP to ICMP, UDP or TCP
-- (src/icmp.c, src/udp.c, src/tcp.c). A handler that returns a positive size has written a reply
-- over the payload, which `ether_output_reply` sends. Datagrams go to and come from other processes
-- through two queues in shared memory (util/queue_r.c, src/xstack.c, lib/xstack.c).
--
-- The files, each named after the part of the program that it models:
--   Prelude: shared names, lists and words, `&`, `|` and `^` at variables, `int` and errno values.
--   QueueR: util/queue_r.c. `QueueCb` is `queue_cb_t`; each function has the name of the source. Fifo
--     relates it to a list, Spsc to one pushing and one popping thread.
--   Checksum: `ip_checksum` of src/ip.c, over the list of the bytes that it reads.
--   IpHdr: `struct ip_hdr` and `ip_hton`, `ip_ntoh`, `ip_reply_header` of src/ip.c.
--   Ether: src/ether.c, src/ether_fcs.c and src/linux/linux_ether.c but for the opening of the socket.
--     Arrival is about a frame of `ether_send` at `ether_receive`.
--   IpFrag: `ip_send_fragments` of src/ip.c. A packet is its header, its options and its data; Packets
--     describes the fragments independently, Loop relates the loop to them.
--   IpFragment: src/ip_fragment.c. Map is about the map of the units, Piece about the payload of one
--     buffer, Valid about the buffers in their tree, Complete and Deliver about a whole packet,
--     Reassembly about the input of a fragment. 16384 bytes are what `fragmap_init` clears marks for.
--   IpDefer: src/ip_defer.c. `DeferState` holds its static variables.
--   Icmp: src/icmp.c, over the bytes of a message.
--   IpInput: `ip_input` of src/ip.c. `IpStack` is what it calls: the ARP cache, the routes, the fragment
--     buffers and the table of protocol handlers, with one state. Unbound is about a port without a socket.
--   IpOutput: `ip_send` and `ip_config` of src/ip.c, over Route, IpDefer, IpFrag and Ether. `ArpCache` is
--     the cache.
--   Udp: src/udp.c. `Sockets` is the tree of the sockets and the delivery to one of them.
--   RbTree: what the program expects of the trees of src/tree.h. RbTree/Ordered has the trees for each
--     comparison, with what is expected where this orders the keys. RbTree/Assoc shows that both can be had.
--   Route: src/ip_route.c. Valid has the invariant and the table that the state stands for, Links is about
--     the trees, Fill about an entry that is filled, Update and Lookup about the operations.
--   SlotTree: the same trees over an array whose keys the program writes in place. SlotTree/Slots shows
--     that what is expected of them can be had.
--   Arp: the messages of src/arp.c. `ArpStack` is the cache, the deferred packets and the routes.
--   Arp/Cache: the cache of src/arp.c, `ArpTable`. Order is about the comparison, Scan and Victim about the
--     choice of an entry, Valid has the invariant, Insert, Lookup and Remove are about the operations,
--     Ageing about the periodic task, Start about the cache when the program starts.
--   Stack: src/arp.c, src/ip.c and src/ip_defer.c together, with one state. Neighbour is about a host that is
--     heard and then sent to. Stack/Node adds `ip_input`, src/udp.c and the sockets of src/xstack.c; Datagram,
--     Verdict and EndToEnd follow a datagram from `xstack_udp_send` of one host through `ether_receive` and
--     `ip_input` to the process of another.
--   IpUtil: util/ip_util.c. Dyndebug: src/dyndebug.c and src/dyndebug.h, with the strings of the C library.
--   Sock: src/xstack.c. Client is lib/xstack.c, Threads the two threads with their start and stop; Queues
--     has the queues as lists, Delivery, Egress and Sendto the theorems.
--   Tcp: src/tcp.h and src/tcp.c. Segment is the header with its checksum, Fsm is `tcp_fsm`, Input is
--     `tcp_input` with the table of the connections; Connect is about both.
--
-- Conventions. The host is little-endian with a 64-bit `size_t`. A C struct is a record of its
-- fields as they stand in memory; a buffer is the list of its bytes, and what a function writes
-- through a pointer is returned. Unsigned arithmetic that can wrap is written with `%`. An `int`
-- result is an integer, with error codes as negative numbers, and an `errno` that the callers read
-- is part of the result. `LOG` calls are left out.
--
-- Loops are recursions on the list or the count that they go through. Two run on fuel instead, and
-- return `none` without it: the loop of `ip_send_fragments`, which gets one round for each byte of
-- data and one more although each of its rounds but the last takes 1472 bytes, and that of
-- `ip_defer_handler`, which gets one round for each slot of the ring; the ring holds one packet less.
-- `decimal` writes up to ten digits, as many as a number of 32 bits has.
--
-- Parameters. The kernel's `sendto` is a function of the frames sent so far and the frame; what its
-- `recvfrom` returns is a list. The red-black trees are the interface `RbTree`. Those of the fragments,
-- whose comparison orders all keys, have the laws `IsRbTree`. The comparisons of the routes and of the
-- connections do not, so these trees are a family `RbTrees`, one for each comparison, and the laws are
-- promised for keys that the comparison orders; so are those of the interface `SlotTree` of the ARP
-- cache. `memcmp` is a parameter of the comparison of connections. `ip_send` is a parameter of the
-- deferred transmission, of `xstack_udp_send` and of the egress thread, and with `ip_input` of the
-- reassembly; `IpStack` is one of the IP input, `ArpCache` of the output, `Sockets` of UDP, `ArpStack`
-- of ARP, `IngressOps` of the ingress thread. Stack fills in `ArpCache`, `ArpStack`, `Sockets` and, but
-- for the reassembly and TCP, `IpStack`. What the threads read of the shared state is a list, an
-- entry for each round, and `none` is a thread that still runs when the list ends.
--
-- Not modelled: the red-black trees and lists of src/tree.h and src/queue.h and the linker sets of
-- include/linker_set.h, which are copies of BSD headers; raw sockets, shared memory, signals and
-- threads of the host; logging. PROJECT.json lists each part with what is left.
pub mod Prelude
pub mod QueueR
pub mod Checksum
pub mod IpHdr
pub mod IpFrag
pub mod IpFragment
pub mod IpDefer
pub mod Icmp
pub mod IpInput
pub mod Ether
pub mod Tcp
pub mod Udp
pub mod RbTree
pub mod SlotTree
pub mod Route
pub mod Arp
pub mod Sock
pub mod IpOutput
pub mod Stack
pub mod IpUtil
pub mod Dyndebug
