-- ===== src/Lib.antt =====
-- The protocol core of an EIGRP router (C, eigrp/code): the routes in packets, their metrics, the
-- routes of a destination, and the state machine of DUAL that decides which of them is used.
--
-- How the parts interact. A packet handler decodes a route (eigrp/code/eigrp_tlv1.c, on a stream of
-- eigrp/code/eigrp_stream.c), finds its destination (eigrp/code/eigrp_table.c) and hands a message to
-- DUAL (eigrp_fsm_event in eigrp/code/eigrp_fsm.c). DUAL lets the topology take the metrics of the
-- message over (eigrp_topology_update_distance in eigrp/code/eigrp_topology.c), which computes the
-- metric of the path (eigrp/code/eigrp_metric.c) and files the route by its distance. DUAL then
-- chooses an event and runs its handler, which sends packets, queues changes, installs routes and
-- moves the destination between PASSIVE and the four ACTIVE states. A packet that must arrive waits
-- in the queue of its neighbor until it is acknowledged (eigrp/code/eigrp_packet.c), is sent again
-- after a time taken from the round trips (eigrp/code/eigrp_neighbor.c), and leaves at the pace that
-- the bandwidth of the interface allows.
--
-- The files:
--   Prelude      tests, lists, machine words and order facts that all parts share
--   Types        the records and enumerations of eigrp/code/eigrp.h, eigrp_structs.h, eigrp_const.h
--   Metric       eigrp/code/eigrp_metric.c: conversions, eigrp_metric_calculate,
--                eigrp_metric_total_calculate; Metric.Config the configuration operations
--   Topology     eigrp/code/eigrp_topology.c and eigrp_list.c: the two queues of a destination,
--                eigrp_topology_route_read and eigrp_topology_route_select; Topology.Distance
--                eigrp_topology_update_distance; Topology.Flags the successor flags; Topology.Rib
--                eigrp_update_routing_table
--   Dual         eigrp/code/eigrp_fsm.c: the table NSM; Dual.Reply the reply status table;
--                Dual.Select eigrp_fsm_event_select; Dual.Handlers the handlers; Dual.Machine
--                eigrp_fsm_event, the loss of a neighbor (with its caller in eigrp_topology.c), the
--                sent query and the active timer
--   Stream       eigrp/code/eigrp_stream.c: the byte stream of a packet and its positions;
--                Stream.Views and Stream.Moves read and write it as bytes before and after a position
--   Prefix       eigrp/code/eigrp_prefix.c: normal form and match of prefixes
--   Family       the address and prefix codecs of eigrp/code/eigrp_ipv4.c and eigrp_ipv6.c
--   Tlv1         eigrp/code/eigrp_tlv1.c: Tlv1.Parts the sections, Tlv1 the decoder and the encoder
--   Tlv2         eigrp/code/eigrp_tlv2.c: the decoder of the wide format
--   Pfxlimits    eigrp/code/eigrp_pfxlimits.c: the state of a prefix limit, its penalty and its events
--   Checksum     eigrp/code/eigrp_checksum.c
--   Table        eigrp/code/eigrp_table.c: the hash table of destinations, its lookup, growth and
--                removal, and the longest match
--   Rtt          eigrp/code/eigrp_neighbor.c: the estimate of the round trip and the retransmission
--                timeout
--   Pacing       eigrp/code/eigrp_packet.c: the credit of an interface and the delay of a packet
--   Rtp          eigrp/code/eigrp_packet.c: the reliable queue of one neighbor, its copies, its timers
--                and its acknowledgements
--   Samples      concrete values for the tests; the modules named Tests hold the tests
-- Below each part stand the modules that prove its properties, named for what they prove.
--
-- How state is modelled. A destination is the record Dest of its two queues, its reply status table,
-- its distances and its state; a handler takes a World, the destination and the effects so far, and
-- returns the next one. Packets, requests to the RIB, queued changes and timers are effects in their
-- order; the bits of a flag word are fields. A route and a neighbor are numbers that stand for their
-- addresses, and the write through a pointer to a route is a write to the queue that holds it.
-- A NULL dereference, a division by zero and an access outside of a block are `none`. Allocation is a
-- Boolean argument. A stream is the record of its block and
-- positions; its operations return the next stream. `realloc` is a parameter: a block that has grown
-- begins with the old contents. A prefix limit takes the time and whether a timer can be had; what it
-- does to neighbors and routes is a list of effects. IPv4 and IPv6 are two values of one record, since
-- their codecs have the same text but for those. A node of the table is a number that stands for its
-- address, and a chain is the list of its nodes. The clock, the result of a send and of an allocation
-- are arguments of the steps of Pacing and Rtp; a queue of packets is a list with the oldest first,
-- and a timer is the delay it was started with.
--
-- Bounds and fuel. Words are native numbers with their wrap-around written out: metrics have 64
-- bits, stored distances 32. Three loops are not structural. The doubling loop of
-- eigrp_stream_ensure has fuel 64, the bits of its size. For the dispatch that eigrp_fsm_event_dinc
-- starts again the fuel is 1, since the states that an increase leads to have no handler of another
-- increase in the table NSM. The loop over the attributes of a wide metric has one unit more than
-- the bytes of the attributes, since each takes two bytes at least.
--
-- Not modelled: packets but for their routes, the packetizer, the encoder of wide TLVs, the states
-- of a neighbor and its Hellos, the checks of a received packet, the admission of a multicast to
-- several neighbors, the operations on the whole table of destinations, configuration other than
-- that of metrics, the event log and debug output. The choice of the neighbors that a QUERY is sent
-- to is open: any neighbor may be added to the reply status table while a destination is ACTIVE.
-- The sweep of unreachable destinations (eigrp_update_topology_table_prefix) is an effect. The
-- queues and the flags of pending updates may change between two steps of a destination. The socket
-- call of eigrp_stream_recvmsg, the printing of prefixes, the decision of an output filter and the
-- neighbors that a prefix limit suspends are open.
pub mod Prelude
pub mod Types
pub mod Metric
pub mod Topology
pub mod Dual
pub mod Stream
pub mod Prefix
pub mod Family
pub mod Tlv1
pub mod Pfxlimits
pub mod Checksum
pub mod Table
pub mod Rtt
pub mod Pacing
pub mod Rtp
pub mod Tlv2
pub mod Samples
