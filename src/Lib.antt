-- ===== src/Lib.antt =====
-- oRSS-NIC spreads the flows of a host over its cores. An Open vSwitch tags the packets of each
-- flow with a VLAN, and the network card maps a VLAN to a core. The program connects to the switch
-- over OpenFlow, asks once a second how many packets each flow has seen, keeps the counts in a ring
-- buffer per flow, and moves flows from the most to the least loaded core by changing their VLAN.
-- Two XDP programs watch the packets themselves and record how far each TCP connection has come.
--
-- Files, with the source that each is about:
--   Prelude        names shared by all; `Run` is the outcome of a C call: a value, `exit(1)`, or
--                  undefined behaviour, which is named; an array is a function with its length at
--                  each access
--   RingBuffer     src/ringbuffer.c, src/ringbuffer.h: `ringbuffer_add` is `add`, and so on
--   Heap           the blocks of ring buffers: `calloc` and `free` in src/ringbuffer.c, and the
--                  pointers that hashmap.c and balancer.c share
--   FiveTuple      the key of a flow, in src/hashmap.h and src/hashmap.c
--   HashMap        src/hashmap.c, src/hashmap.h: `hashmap_insert` is `insert`, and so on;
--                  `Contents` has the finite map that the table stands for
--   Balancer       src/balancer.c, src/balancer.h: `balancer_migrate` is `migrate`, and so on;
--                  `Shapes` has the structures, and `Printing` is `balancer_print_migrations`
--   Xdp            src/bpf/xdp.bpf.c, src/bpf/xdp.bpf.h: `parse_headers`, `xdp_rx`, `xdp_tx`;
--                  `Trace` runs them on many packets
--   Words          the macros `htonll` and `ntohll` of src/openflow.h
--   Openflow       src/openflow.c, src/openflow.h: whole messages. `Socket` reads them as bytes;
--                  `Ports` and `Handshake` make the connection; `Control` answers; `Convert` turns
--                  structures into host order; `FlowMod` changes a VLAN; `Replies` asks for the
--                  flows and reads them, with the structures in `Ovs`; `Flows` has the flows and
--                  their release, `Dump` prints them, and `Closing` closes the connection.
--                  `Selects` has what the wildcards of OpenFlow 1.0 mean for a match, and `Told`
--                  the offsets of the structures in which a switch tells of itself. The others
--                  hold proofs
--   Monitor        src/main.c: the signal handler and the functions of each round; `Main` has the
--                  rounds themselves and the whole program, in which all the other parts meet;
--                  `Orders` has what the orders leave at the switch, whose flows
--                  controller/controller.py installs on the VLAN 0
--   Witnesses      concrete inputs
-- The other children of a module hold proofs about it and are named for what they prove.
--
-- Addresses: the pointers of the source that are freed are numbers that `malloc` is given to return:
-- `Message.body` for the body of a message, `Action.body` for an action, `ports_body` for the ports.
--
-- Numbers: `uint64_t` sums and differences are taken modulo 2^64, the counter of transactions modulo
-- 2^32. The ints of ring buffers, tables and cores never go below 0 or above the sizes of their
-- arrays, as the theorems on them say, and are natural numbers.
--
-- Loops: a `for` loop recurses on the number of rounds that are left, so that no fuel is chosen. The
-- searches of the table recurse on the slots that are left, and a search beyond them is out of
-- bounds. The iteration of the balancer over the table has fuel for each slot and one more round,
-- which its theorem shows to be enough. The loops that wait for the socket recurse on the reads that
-- are to come, and end in `out_of_fuel` where none of these ends the wait. The loops over the entries
-- of a reply and over their actions recurse on the places that are left in the arrays, and a write
-- behind the last place is out of bounds. The rounds of `main` recurse on what comes in each of them;
-- where this ends and no interrupt has come the result is `out_of_fuel`.
--
-- The bytes of a socket: `Socket` has the bytes that are to come and how the calls of `read` go, and
-- `read_openflow_message` reads a message from them. The loops above it take whole messages from a
-- list, and `next_message` is what one call gives them.
--
-- Writing: whether `write` takes a request or an order is an argument, and what fails is not at the
-- switch. A header that fails to be written is only reported by the source and nothing else depends
-- on it, so that `write_calls` has the calls and not their results.
--
-- Interrupts: the handler sets two flags, or ends the process. Only the test of the loop reads them,
-- so that the interrupts while the connection is made are taken before the first round, and those in
-- a round at its end. The result of a process that ends in the handler is `none`, which says nothing
-- of the state that it leaves; that a second interrupt also ends a process that waits for the switch
-- in vain is not modelled.
--
-- Parameters: the conversions of byte order of the C library, how words lie in memory, the constants
-- of OVS and the layout of its structures, the results of the calls of sockets, the headers of the
-- kernel, BPF maps, `long double`, and the value of an uninitialised variable. What is relied on of
-- them is written out in `IsByteOrder`, `IsHashMap` and `IsIeee`.
--
-- Not modelled: sleeping, what is printed outside of `openflow_dump_flows` and
-- `balancer_print_migrations`, and the Python controller, which have no state that the program uses
-- again; the addresses that sockets are bound to; what `close` and `shutdown` give back, which the
-- program does not read.
pub mod Prelude
pub mod RingBuffer
pub mod FiveTuple
pub mod Heap
pub mod HashMap
pub mod Xdp
pub mod Balancer
pub mod Words
pub mod Openflow
pub mod Monitor
pub mod Witnesses
