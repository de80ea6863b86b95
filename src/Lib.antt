-- ===== src/Lib.antt =====
-- A model of the network stack of the ESP8266 program ip1, and the theorems about it.
--
-- The parts and their files (paths from the repository's root):
-- - Utility: components/net_stack/utility. Types (net_types.h), Endian (endian.h, with loads and
--   stores in little-endian order, as on the processor), Checksum (checksum.c), Debug (debug.c). Print
--   models the conversions of printf that the program uses, Print/Fields reads such a text again.
-- - Os: what the program calls. Messages holds the structures that travel over queues (the .h files of
--   components/net_stack/protocols). Calls holds a call of FreeRTOS, of the heap, of the radio or of a
--   callback as a value of `Call`, and the record `Env` of the answers of the outside.
-- - Sys: the state. Globals holds tcp.h, arp.h and the globals of the .c files as the record `Sys`,
--   Prims the calls as steps on it.
-- - Eth: protocols/eth.c. Arp: protocols/arp.c (Cache: the table of addresses, Pending: the requests
--   that wait, Packets: the wire, Pending/Balance: how often a task waits and is let go, Task: a round
--   of arp_task and its clients, Task/Rounds: runs of it, Task/Dates: how long a request waits). Ipv4:
--   protocols/ipv4.c (Transmit: send_ipv4_packet, Header: the header, Output:
--   internal_send_ipv4_packet, which is the body of ipv4_task, with Output/Frames on the frame that
--   goes out, Input: ipv4_input). Icmp: protocols/icmpv4.c. Udp: protocols/udp.c (Ports: its table,
--   Datagram: what it sends and what it makes of that).
-- - Tcp: protocols/tcp.c (Ports: the table of ports, Segment: the headers, Send: from tcp_send to the
--   IPv4 queue, with Send/Ownership on the blocks of applications and Send/Handover on the datagrams;
--   Input: a received segment, Acks: what it acknowledges, States: one function for each state,
--   Receive: input_tcp_internal, Commands: the calls of applications and what they make the task do,
--   Task: the scan for timeouts and a round of tcp_task). Below Receive, Moves is the transition
--   diagram, Diagram shows that input keeps to it, and Data and Delivery follow a segment of data to
--   the application; below Task, Turns says what each event may do to a port, and Rounds shows it of
--   whole runs.
-- - Wifi: wifi_rxcb of components/wifi_manager/src/wifi_manager.c. Wifi/Frames follows whole frames
--   through the protocols.
-- - Startup: arp_init, ipv4_init, init_tcp and udp_init (Init), and wifi_begin with its event handler
--   (Wifi), over the record `Kernel` of what FreeRTOS and the SDK answer (Kernel).
-- - Monitor: components/task_monitor/src/task_monitor.c (Printing: the report, Answer: its blocks).
--   Apps: components/tcp_test and components/arp_scanner.
-- - Base holds lists, words, the state monad and the search loop that the parts share. Tests holds
--   concrete states, examples of the theorems and runs.
--
-- How the code is translated. A C function is a function from `Sys` to its result and the next `Sys`.
-- A task is a round of its loop, given the item that its queue set delivers. A pointer to an entry of
-- a table is its index. A heap block is its address and the bytes in it at the time it is handed on.
-- Integers are natural numbers, cut to their width (`u8`, `u16`, `u32`) where the code's type cuts
-- them. The log of `Sys` holds all calls so far, newest first; an answer of the outside is a function
-- of that log, so no theorem depends on what the outside answers but by its hypotheses. `Call.fault`
-- marks behaviour that C leaves undefined, such as a read past the end of a buffer; the function
-- returns there. Where a task waits and another task changes what it reads next, the change is an
-- argument, `meanwhile`.
--
-- Bounds. The loop that folds the carries of a checksum runs on fuel, 3 tests of its condition, which
-- is enough for a 32-bit sum (Utility/Checksum/Fold). All other loops run over the table or the buffer
-- that they read. A number is printed on fuel, 10 decimal or 8 hexadecimal digits, which is enough for
-- 32 bits.
--
-- Not modelled: what is logged, but for the lines of the scanner; the size of a queue's items and the
-- priority of a task; the build files. udp.c and tcp.c both define `ports`, `max_ports`, `find_port`
-- and `allocate_port`; each has its own table here, as no other file calls udp.c.
pub mod Base
pub mod Utility
pub mod Os
pub mod Sys
pub mod Eth
pub mod Arp
pub mod Ipv4
pub mod Tcp
pub mod Icmp
pub mod Udp
pub mod Wifi
pub mod Monitor
pub mod Startup
pub mod Apps
pub mod Tests
