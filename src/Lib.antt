-- ===== src/Lib.antt =====
-- A model of the core of Zeitlos, a small operating system: the kernel's memory pool, messages, names
-- and processes, its keyboard and serial drivers, libraries that processes share (streams, ports,
-- terminal emulation, line assembly, the address parser), and the network stack of its network
-- process.
--
-- How the parts fit together. A process is a slot of a table, with memory out of the pool. Processes
-- send each other messages through mailboxes that the kernel keeps, find each other by names in a
-- registry, and are switched by the timer's interrupt, which also reaps those that were killed: their
-- memory goes back to the pool and their names leave the registry. Streams are a protocol of pulls and
-- chunks over messages, and ports one of connections whose data is freed when it is acknowledged. The
-- terminal feeds the bytes that it receives to the emulation core, and command interpreters assemble
-- theirs to lines. The network process stacks TCP and UDP on IPv4, and IPv4 on address resolution and
-- Ethernet frames; telnet runs over TCP, and the file transfer client over UDP on one side and a
-- stream on the other.
--
-- Files, and what they model:
--   Prelude     shared names, lists over native numbers, rings, machine words, slots of a table, strings
--   Mem         sw/os/mem.c, sw/os/mem.h: k_mem_init, k_mem_alloc (rounded, fits, carve, split, alloc_walk),
--               k_mem_free (free_blocks), k_mem_dump. The linked list is a list of blocks in address order;
--               a step that relinks it rebuilds the list.
--     Layout, Valid     the blocks tile the pool
--     Live, Release     which memory is handed out and taken back
--     Holds             what the holder of an address may count on
--     Shape, Fit        pages, coalescing, and when a request is granted
--     Exhaust, Report   the descriptor table, and the sums of the report
--   Zobj        sw/common/zobj.h: the header of an object, as a tag and a word
--     Tree              sw/common/zobj.c: objects as trees; z_obj_copy, z_obj_equal, z_map_set, z_map_find
--       Equal, Maps
--   Msg         sw/os/msg.c, sw/common/zmsg.h: mailbox_push, mailbox_pop, k_msg_send, k_msg_read, translate
--     Queue, Ring       a mailbox is a bounded queue
--     Deliver, History  the system calls, and sequences of them under any schedule
--     Ends              the same, for one queue at a time
--     Resolve           z_resolve_obj: the payload's pointers rebuilt for the reader
--     Wait              z_msg_wait, z_msg_wait_timeout
--   Port        sw/common/zport.c, sw/common/zport.h: z_port_send, z_port_handle_ack, z_port_accept and the rest,
--               over Msg; a turn of a waiting loop is a reading of the clock and what others did
--     Ring              the sends that wait for an acknowledgment are a queue
--     Wire, Kept, Safety  a connection's two ends over the kernel's mailboxes
--     Limits            the waiting loops, and a port that is used again
--   Pidreg      sw/os/pidreg.c: k_pid_register, k_pid_lookup, k_pidreg_release_all
--     Search, Unique, Lookup
--   Proc        sw/os/kernel.c: k_proc_create, k_proc_start, k_proc_stop, k_proc_kill, z_exit, and the timer's
--               branch of z_kernel_entry
--     Round, Schedule   the round robin
--     Create, Isolation, Reach   the processes' memory, over every sequence of operations from boot
--     Stale             the flags of a slot
--   Stream      sw/common/zstream.c, sw/common/zstream.h: both sides; what is sent or freed is a list of
--               effects, what is read is an argument
--     Waiting           the blocking calls zstream_pull and zstream_open
--     Tag, Transfer, Limits, Blocking
--   Vt100       sw/common/zvt100.c, sw/common/zvt100.h: vt_feed_byte and what it calls
--     Frame, Bounds, Params, Feed   the cursor and the sizes
--     Traced, Dirty     the dirty rows
--     Overflow          long parameters
--   Line        sw/common/zline.c: z_line_feed, z_line_reset
--     Edit
--   Hid         sw/os/hid.c: z_hid_irq0, z_hid_irq1, k_hid_read_key
--     Ring, Edges
--   Uart        sw/os/uart.c: z_uart_irq, k_uart_putc, k_uart_getc; the registers' readings are arguments
--     Ring, Bytes, Order
--   Dns         sw/common/zdns.c: z_parse_ipv4
--     Address
--   Net         sw/apps/net
--     Octets            fields of 16 and 32 bits in network order
--     Checksum          sw/apps/net/ip.c: ip_checksum
--     Link              sw/apps/net/eth.c: eth_send and the reading of a frame
--     Arp               sw/apps/net/arp.c: arp_cache_insert, arp_lookup, arp_request, arp_handle
--       Cache, Resolve
--     Ip                sw/apps/net/ip.c: ip_send, ip_handle, icmp_handle, ip_poll, and eth_poll above them
--       Wire, Queue     what is on the wire, and the packet that waits for an address
--     Udp               sw/apps/net/udp.c: udp_listen, udp_close, udp_send, udp_handle
--       Ports, Delivery
--     Tcp               sw/apps/net/tcp.c: the sending half; datagrams and notices are lists in the state
--       Receive         tcp_handle and tcp_poll
--       Valid, Run      the invariant, and sequences of calls
--       Wire, Delivery, Timer, Closing
--     Telnet            sw/apps/net/telnet.c: telnet_feed, telnet_send, telnet_poll
--       Stream, Queue
--     Tftp              sw/apps/net/tftp.c: starting, sending, delivering
--       Handle          handle_packet, tftp_handle_stream_msg, tftp_poll
--       Chunks, Blocks, Get, Limits
--
-- Numbers. A word of 32 bits is a natural number with its wrap written out (add32, sub32). An int of
-- the terminal is such a word too, read in two's complement; C leaves its overflow open, the model
-- wraps as the machine does. Pointers are addresses, and NULL is 0 or none.
--
-- Fuel. find_number runs on 33 steps, one more than the registry has entries; a registration always
-- ends within them. resolve_obj runs on a depth of 5, one more than the scratch tables; no resolution
-- needs more. next_process runs on 16 steps, one for each slot; without a runnable process the loop of
-- the source does not end at all. A waiting loop (z_msg_wait, z_port_connect, zstream_pull) takes one
-- element of a list for each round, and gives none when the list is out. ip_checksum folds its carries
-- three times, which is enough for a sum of 32 bits.
--
-- Not modelled: device registers, printing, interrupt masking (a handler is one step), the file system
-- and its third-party library, graphics, the shell, the network's resolver, address configuration and
-- main loop, and the applications. The network driver's answer to a send, the heap's answer to a
-- request for a blob, and each reading of the clock are arguments. A write behind the end of an array
-- is recorded where it matters (Scratch.overrun) and is no write elsewhere. k_proc_start and
-- k_proc_stop are modelled for pids of the table, and the erase loops of the terminal for a cursor on
-- the screen.
pub mod Prelude
pub mod Mem
pub mod Zobj
pub mod Msg
pub mod Pidreg
pub mod Port
pub mod Proc
pub mod Stream
pub mod Uart
pub mod Line
pub mod Vt100
pub mod Net
pub mod Dns
pub mod Hid
