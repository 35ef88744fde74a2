-- ===== src/Lib.antt =====
-- Verification library of the Indigo Virtual Switch, an OpenFlow agent for the Open vSwitch kernel
-- datapath.
-- A packet that the kernel has no flow for comes to an upcall thread. The pipeline looks it up in
-- the flow tables (a TCAM each), translates the actions of the entries that it hits into a netlink
-- message, and collects the mask of the key's bits that it has read; the kernel keeps a flow with
-- that mask. Flow-table changes are followed by a revalidation of the kernel flows, which waits for
-- the controller's barrier. Counters are slots that every thread has a copy of.
--
-- - L2table.antt: modules/l2table/module/src/l2table.c, the MAC/VLAN hash table with quadratic
--   probing. Each function of the file is a function on the record of the table. A probe has fuel,
--   as many steps as the table has slots, which is enough for a well-formed table; an insertion
--   calls itself through the resize, at depth two at most. A size is an int: a resize beyond it has
--   no result, and the theorem on insertion is of tables of at most 2^29 slots.
-- - Tcam.antt: modules/tcam/module/src/tcam.c, the software TCAM: a shard for each mask, hash
--   chains in each shard. The hash rounds, the bloom filter and the walk of the hash table are
--   parameters; where a theorem needs it, the filter forgets nothing, the walk comes to filed
--   shards only, and shards have at most 2^24 chains, for which the counts fit their integers and
--   the test of the load, in floats, is exact.
-- - Stats.antt: modules/stats/module/src/stats.c, slots and the per-thread writers.
-- - Barrier.antt: modules/OVSDriver/module/src/barrier.c, the deferred revalidation; calls of other
--   parts are events of a trace, by which the statements say whether the timer is registered and a
--   barrier blocked. The code calls itself after a revalidation; the depth is fuel, and
--   two is enough.
-- - Action.antt: modules/action/module/src/action.c with the key and the macros of
--   modules/ivs/module/inc/ivs/ivs.h: the set-field actions change the current key and note the
--   attribute, an output action first commits them to the message. The packet in the statements is
--   abstract: its VLAN tags and a value for each attribute, on which the attributes of the message
--   act. The statements are of packets with at most one tag: the key has only the outermost one.
-- - PipelineStandard.antt: modules/pipeline_standard/module/src, the actions of action.c, for a
--   packet and from OpenFlow, parse_value and pipeline_standard_process of pipeline_standard.c, and
--   the CFR of a packet of cfr.c. The group table, the match of a table's tcam and the constants of
--   LOCI are parameters; a group in an action is its value, so that a group that contains itself is
--   not modelled. The loop over the tables has fuel for 17 turns, one for each table and one to end.
-- - Pipeline.antt: modules/pipeline/module/src/pipeline.c, the registered pipelines, the current one
--   and the in-band part of the processing of a packet.
-- - Uplink.antt: modules/OVSDriver/module/src/uplink.c, the choice of the uplink of in-band traffic.
-- - Xbuf.antt: modules/xbuf/module, the expandable buffer and the netlink attributes in it, on a block
--   of bytes. The allocator is a parameter; a call that would write outside of the block gives
--   nothing. An iteration has fuel, as many rounds as the buffer has bytes, which is enough for what
--   xbuf_append_attr and the nests write.
-- - Kflow.antt: modules/OVSDriver/module/src/kflow.c, the cache of kernel flows: its lists on a heap
--   of addresses, the counters of the ports, the messages to the kernel as a trace. The kernel's
--   answers depend on the trace in any way; the megaflow TCAM and the pipeline enter by what they
--   answer. The statistics go to the counters of Stats.antt. A kflow keeps as many stats handles as
--   its count of 16 bits says.
-- - Base.antt: names that all share, lists over native numbers, the laws of bits and masks.
-- - Tests.antt: the theorems at concrete inputs.
--
-- Pointers to entries are their ids or their values, memory is not exhausted, and log and trace
-- output is left out. Not modelled: the sockets, threads and ports of OVSDriver, the expiry task of
-- its kernel flows, the flow-entry operations of pipeline_standard.c, the CFR of an OpenFlow match
-- of cfr.c, group.c, and the debugging and Lua modules. Library code that the source calls (murmur, bloom filter,
-- hash tables, Indigo, LOCI) is not part of the repository and enters as parameters.
pub mod Base
pub mod L2table
pub mod Tcam
pub mod Stats
pub mod Barrier
pub mod Action
pub mod PipelineStandard
pub mod Pipeline
pub mod Uplink
pub mod Xbuf
pub mod Kflow
pub mod Tests
