-- ===== src/Lib.antt =====
-- BT-server: the core of a BitTorrent server in C.
--
-- The program's parts. src/b_parse.c and include/b_parse.h hold the B-coding objects (strings,
-- integers, lists and dictionaries), their allocation and release, and the recursive parsers that
-- build them from a buffer. src/bt_timer.c and include/bt_timer.h keep timers in a ring that
-- SIGALRM drives once a second. src/peer_message.c and include/peer_message.h build the messages of
-- the peer protocol in `struct b_string` buffers, which come from b_parse.c. src/peer_manage.c
-- allocates a peer and connects to it; deal_message of peer_message.c takes a message from it.
-- src/bt_socket.c and include/bt_socket.h open sockets, send on them and share send buffers by
-- counted references; nothing else in the repository calls them yet. src/torrent_parse.c and
-- include/torrent.h take the fields of a torrent out of a dictionary that b_parse.c built, show
-- them and release them. src/bttrace.c and include/bttrace.h print messages behind a mask of
-- levels.
--
-- Common holds names from the library, Boolean tests, lists measured by native numbers, integers,
-- and their lemmas. Libc models the calls on byte buffers: strchr and C strings, strtol
-- (Libc.Strtol), memcpy and network byte order (Libc.Memory). A buffer is the list of the bytes
-- from a pointer to the end of its object; a read or a write past the end is a fault.
--
-- Bcode models b_parse. `Process` is what the calls share besides their arguments: errno, the
-- number of calls of malloc and of live blocks, and the allocator, a parameter that says which
-- calls succeed and what fresh blocks hold. Bcode.Objects, Bcode.Entries and Bcode.Free have the
-- functions of the objects under their own names; Bcode.Scalars has b_string_parse and b_int_parse,
-- cut into the steps of their bodies; Bcode.Parse has b_list_parse and b_dict_parse, whose loops
-- (list_loop, dict_loop with dict_round) and common switch (item) are functions of their own. Each
-- call and each round takes a unit of fuel; a round consumes a byte of the buffer and passes at
-- most three units down, so three times the length of the buffer is enough. Bcode.Blocks counts the
-- blocks that an object owns; Bcode.Total has the theorems on every buffer, with the statement in
-- Bcode.Total.Endings. Bcode.Encode describes the format by terms and their print; Bcode.Decimal
-- and Bcode.RoundTrip lead from there back through the parsers; Bcode.Malformed is about input
-- outside the format, Bcode.Wide about integers that are too large, and Bcode.Bounds about the
-- objects that any input leads to. Where a buffer does not hold a colon or an `e`, it is the text
-- of a message of print_msg, which has 2000 bytes for it (`fits` of Trace); Bcode.Overflow is about
-- that. Bcode.Print has the print functions, as the lines that they hand to TRACE or printf: a
-- string must fit the message, and a key its 128 bytes with a NUL (a shorter key always fits).
-- Values are trees, since no function of the file shares an object. `long` has 64 bits and
-- `unsigned int` 32.
--
-- Timer models bt_timer: `TimerList` is the static `timer_list` with the parts of the process that
-- the functions change. A ring is the sequence of its entries, and a timer is named by its address.
-- `visit` is the loop of the handler, which holds the entry to visit and the one that followed it,
-- as list_for_each_entry_safe does; it runs on fuel, one unit for each visit. Timer.Order has the
-- order of the ring, Timer.Operations the operations, Timer.Tick one run of the handler, Timer.Run
-- many, Timer.Storm equal intervals. Timer.Reach has the states that calls and ticks lead to, with
-- Timer.Ring for the handler and Timer.Blocks for malloc and free; Timer.Table is the contract with
-- callers, a table without order, and Timer.Table.Refine leads from the ring to it. What signal,
-- setitimer and malloc return is an argument. bt_timer_finit clears the head of the ring, which is
-- an empty ring here; Timer.Pointers has it as links that are NULL.
--
-- Links states what the operations of include/list.h that the program calls do to pointers: a
-- `Store` has the `next` and `prev` of each address, and a read or a write at an address that is
-- not live is undefined. Links.Ring says what a ring is, Links.Leads follows its links,
-- Links.Effects is about list_add_tail and list_del. Timer.Pointers is bt_timer once more on this
-- memory, where a timer is a struct at an address. `f` is the fuel of the loop of the handler or of
-- bt_timer_finit, `g` that of get_position, which takes one unit for each timer that it passes; a
-- number above that of the timers is enough. Timer.Pointers.Shape says which sequence of timers a
-- ring in memory stands for; Position, Steps, Bodies, Expire, Behind and Refine lead from the
-- handler in memory to the one on sequences; Calls is about one call, Client and Answers lead to
-- the table of Timer.Table, Course mixes calls and alarms, with Course.Outside for timers that are
-- not in the ring, Finit is about bt_timer_init and bt_timer_finit, and in Interrupted SIGALRM
-- comes in the middle of list_del.
--
-- Message models the generators of peer_message as steps (Message.Steps) that change the process or
-- fault. Message.Frames has the wire format and the lemmas on set_prefix_and_msgid;
-- Message.Handshake, Message.Control, Message.Payloads and Message.Piece have the messages.
--
-- Socket models bt_socket: init_socket as bind_retry and socket_retry, from the labels of its loops
-- on, and sendall; Socket.Sync has bt_sync_send, Socket.Buffers the send buffers and units. Socket
-- calls are functions from the number of the call to a result. Each round takes a unit of fuel:
-- sendall makes at most one round for each byte, connect is tried seven times at most, and
-- init_socket has no bound, so its theorems name the round that succeeds. Socket.Send, Socket.Ports
-- and Socket.Late have the theorems. struct send_buf and struct send_unit are read off their uses.
--
-- Peer models src/peer_manage.c, include/peer_manage.h, and the functions of peer_message that work
-- on messages that were made or received: send_message, deal_keep_alive and deal_message, which
-- restarts a timer of bt_timer. Peer.Deal and Peer.Init have the theorems.
--
-- Torrent models torrent_parse. Each loop over entries is a function of its own, and its round
-- another: multi_files_loop with multi_files_entry in Torrent.Files, files_loop with files_round
-- and torrent_info_loop with torrent_info_entry in Torrent.Info, torrent_loop with torrent_entry in
-- Torrent.Parse. A round gives back the entry too, since an object that is moved out leaves NULL
-- behind. Keys are compared as the texts that their 128 bytes hold. Torrent.Free has the releases,
-- Torrent.Print the lines that the print functions show: texts within the buffer of print_msg, and
-- pointers and unsigned long longs not at all, since `%d` is undefined for them. Torrent.Lookup
-- describes what a dictionary says, field by field; its child modules lead from there to the loops.
-- Torrent.Safety is about any buffer: it keeps account of the blocks, and Torrent.Safety.Complete
-- carries what Bcode.Bounds says of a parsed dictionary through the loops into the structs, whose
-- pointers Torrent.Safety.Fields lists. Torrent.Release is about torrent_free, and Torrent.Shown
-- about torrent_print on whatever was parsed. The parse takes the fuel of b_dict_parse.
--
-- Trace models bttrace, with Trace.Shown for its theorems.
--
-- Bcode.Tests, Timer.Tests, Timer.Pointers.Tests, Message.Tests, Socket.Tests, Peer.Tests,
-- Torrent.Tests and Trace.Tests hold examples, most of them in the process of Bcode.Start.
--
-- Not modelled: the unit tests of these files; the traces whose texts are constants or numbers,
-- which fit the buffer, and `assert`; the overflow of the int `num` of timers after 2^31 calls of
-- bt_timer_add; `prev` in the models on sequences, which write it and never read it;
-- src/conn_tracker.c, two functions that return 0. include/list.h, libevent and cmockery are copies
-- of other projects. A callback of a timer is taken to leave the timers alone, and SIGALRM not to
-- interrupt the operations on the ring, except in Timer.Pointers.Interrupted. What ctime and
-- vsprintf write is left open.
pub mod Common
pub mod Libc
pub mod Bcode
pub mod Links
pub mod Timer
pub mod Message
pub mod Socket
pub mod Peer
pub mod Torrent
pub mod Trace
