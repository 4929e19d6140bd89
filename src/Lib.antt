-- ===== src/Lib.antt =====
-- GNUWeebBot, a Telegram bot in C: its packet server, the parser of Telegram events, the dispatch
-- to its modules, the modules themselves, the calls of the Telegram API, the reader of the
-- configuration, and the data structures and text routines that they use. All paths are from the repository's root; the code of the bot stands under src/gwbot.
--
-- The server (core/server.c) listens on a TCP socket. A client sends one packet: two bytes with
-- the length in network byte order, then the data, a Telegram event as JSON. The event loop gives
-- each connection a channel, whose number it pops from a stack of free numbers, reads what
-- arrives into the channel's buffer, and when the packet is complete hands it to a worker thread,
-- whose number it pops from a second stack; where no thread is free the packet is queued. The
-- connection is then closed and the channel number pushed back.
--
-- A worker parses the packet to an event (lib/tg_event.c) and hands it to the modules of the bot
-- in the order of a table (core/event_handler.c). The translate module makes a query for a
-- translation service of commands such as `/tr fr en text`; the administration module reads
-- commands such as /ban, checks the sender's privilege and calls the function of the command,
-- which calls the Telegram API (lib/tg_api.c and lib/tg_api/*.c) and answers in the chat. The
-- configuration file (config.c) is read before the server starts; its strings live in an arena
-- (lib/arena.c).
--
-- Files:
--   Base             shared names, lists, C strings, and `Outcome`: a result, or the way in which C
--                    stops being defined or stops (failed assertion, abort, access outside an object)
--   TStack           src/gwbot/include/gwbot/lib/tstack.h; Refine: against a list
--   Que              src/gwbot/include/gwbot/lib/que.h, on a heap of nodes; Chain: doubly linked
--                    chains on the heap; Fifo: against a list of packets; Destroy: release
--   Text             src/gwbot/lib/string.c; UrlEncode, ShellArg, Html (Bound: its buffer); Trim:
--                    white space; Decimal: the integers that snprintf writes
--   Arena            src/gwbot/lib/arena.c; Keeps: a text in it stays
--   Config           src/gwbot/config.c, include/gwbot/config.h; Names: the sections and names as
--                    a table; Settled: what a file sets
--   Argv             src/gwbot/argv.c; what getopt_long answers is a parameter
--   Tga              src/gwbot/lib/tg_api.c, lib/tg_api/*.c and their headers. Response: the buffer
--                    for an answer; Holds: what it holds. Post: tg_api_post; Url, Answer: what it sends
--                    and what its handle has afterwards; Success: when it succeeds. Body: the structs and the bodies made of
--                    them; Form: how a receiver reads a body; Fields, Send and Reads: what it reads.
--                    Calls: the functions tga_*. Admins: get_chat_administrators.c; Listed: whom the
--                    parser finds
--   Server           src/gwbot/core/server.c. State: the structs of include/gwbot/gwbot.h. Submit:
--                    submit_event and dispatch_sqe. Client: handle_client_event. Accept:
--                    run_acceptor, handle_events, monitor_client_time. Framing, Fragments,
--                    Delivery and Handover: what becomes of a packet. Slots: the channel numbers. Setup:
--                    validate_cfg and init_state; Config, NewChans and Started: what they
--                    establish. Loop: run_event_loop, close_fds and handle_thread; Work: from the
--                    queue to a thread, and the thread free again. Threads: the event loop and the
--                    workers as a step relation; Idle, Moves, Workers and Kept: what each step and
--                    each interleaving does to the threads
--   Admin            src/gwbot/modules/003_admin/admin.c: the entry of the administration module.
--                    Parse: which command a text is; Gate: who may run it; Runs: what is called.
--                    Exec: the answers of the API; its children Deeds: the text of a reply in its
--                    buffer; Commands and Report: what each command does; Confined, Replies: on whom, and on which answers. Privilege: the
--                    check, from the answer about the administrators
--   Tg               include/gwbot/lib/tg_event.h, tg_event/*.h and lib/tg_event.c. Json: what is used
--                    of json-c. Fill: functions that fill a struct in and may fail. Event: the structs
--                    and the functions tge_get_*. Info: parse_tgevi_*. Message: what all
--                    kinds of message have alike. Parse: parse_event_*,
--                    parse_message and tg_event_load_str; its children Part, Made, Kind and Depth: what
--                    a parsed message is, and the fuel that is enough. Ids: the ids of an event.
--                    Sample: a JSON type for the tests
--   Modules          Debug: modules/000_debug and 001_standard. Translate: modules/002_translate; Query:
--                    the buffer of the query. Admin: an event as the administration module reads it
--   Dispatch         core/event_handler.c and include/gwbot/module.h. Order: which module answers. Table:
--                    module_table.h. Safe and Packet: what a packet makes the modules do
--   Tests of each part: runs, and the theorems at concrete inputs
--
-- Model. A function keeps its name; a function with several stages is split into one definition
-- per stage (received, after_event, close_chan for the parts of handle_client_event2), composed
-- as the code composes them. State is passed explicitly. What the system answers (accept, recv,
-- epoll_ctl, gettimeofday, pthread_create, aligned_alloc) is an argument, and the theorems hold
-- for every answer. So are, in the entry of the administration module, what the lookup of the
-- chat's administrators returns and what the functions of the commands do; Dispatch.Table puts the
-- program's own functions (Admin.Exec) there. The calls that change something outside (close,
-- shutdown, epoll, signalling and starting a thread) are recorded in the list `actions`. Numbers
-- are ℕ, with `% 2 ^ w` where a w-bit variable may wrap. A pointer is its address, NULL is 0.
-- Descriptors are ℕ, and -1 is `none`.
--
-- libcurl is a parameter as well: whether it gives a handle, and for each request the pieces of the
-- answer and whether the transfer succeeds (Tga.Post). It is documented to call the callback for
-- each piece and to fail where the callback returns another number. Each call of `realloc` may
-- fail; the theorems assume that no object has more than 2 ^ 62 bytes. The commands of the
-- administration module ask a function of the calls made so far, so an answer may depend on all of
-- them. inih hands over a list of entries; snprintf and atoi are written out.
--
-- json-c is a parameter: a type of objects and the accessors that the program calls (Tg.Json).
-- json_object_array_length asserts that its object is an array; the program ends at another one.
-- Nothing is assumed of it but, for the fuel, that objects are finite: what stands at
-- reply_to_message is less deep than the message. Whether memory is found is part of the
-- parameter. What a function has stored before it fails stays stored (Tg.Fill). The union in
-- `struct tgev` is a data type; the getter that reads the member of another type returns what the
-- bytes there are, NULL or a pointer to something else (`wild`).
--
-- Bounds and fuel. The parser of messages runs on fuel, the depth to which messages reply to
-- messages; any bound of that depth is enough. `que_destroy` runs on fuel, one more than the
-- number of nodes, which is shown to be enough for every valid queue. `run_event_loop` runs over
-- the list of its rounds, each with the answers of the system in it, and stops where the list
-- does. All other loops are structural recursion. Buffer sizes are those of the code: 0x6000
-- bytes of data in a packet, 0xffff entries in the epoll map.
--
-- Workers and event loop are interleaved in any order (Server.Threads). A step is what is done
-- between taking a thread's lock and giving it back, so the parts of handle_thread between its
-- waits are functions of their own; a worker may end at any wait, whether or not it has an event
-- by then.
--
-- Not modelled: logging, the locks themselves, the queue cqes, the set-up of sockets, the bytes of
-- those replies of the administration module that name no user (they stand as data), what
-- que_enqueue reads beyond its source, the bounds of the block that escapeshellarg writes to, other
-- than the size that is enough, the abort of json-c inside the lookup of the administrators, which
-- the entry takes as returned, the release of events and handles, the transfers
-- of libcurl, the database and the event logger, main.c, and the third-party libraries in src/ext.
pub mod Base
pub mod TStack
pub mod Que
pub mod Text
pub mod Tga
pub mod Arena
pub mod Config
pub mod Argv
pub mod Server
pub mod Admin
pub mod Tg
pub mod Modules
pub mod Dispatch
