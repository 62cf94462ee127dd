-- ===== src/Lib.antt =====
-- A verification library for the programs of an operating systems course, in C, one folder per
-- exercise sheet. Programs of different sheets share no code and do not interact; inside a program
-- the parts interact by messages, by shared memory or by threads over common globals.
--
-- Common: the shared names, lists over native numbers, the values of C's `int` (Int), C strings as
-- lists of bytes (Bytes), `sprintf("%d")` and `atoi` (Decimal), `strtok` (Strtok), `%d` of `scanf` and `fgets`
-- (Scanf), and sums over the threads of a program (Crowd). The numbers
-- of the models do not wrap around, but in the casts of cw06, which are written out: the sources
-- count players, pizzas, columns and moves, far below the width of `int`. A copy by `strcpy` between
-- areas that overlap is undefined, unless an argument tells that it copies them from the front.
--
-- Game: noughts and crosses over stream sockets, cw10/zad1/client.c and cw10/zad1/server.c.
--   Game/Board is `Board` with `new_board`, `move` and `check_winner`; Play and Winner prove what
--   the two do. Game/Client is the player's process: `receive` is a round of `listen_server`, `turn`
--   (Client/Turn) a round of `play_game`, over the globals of the program and the text that `arg`
--   points at; Rules and Ping prove what rounds do. A round is taken as one step. Game/Server is
--   the globals `clients` and `clients_count` with `add_client`, `remove_client`, `ping` (Ping),
--   `check_messages` (Poll) and the loop of `main` (Request). Search, Table, Add, Remove and Handle
--   prove their laws. Game/Relay joins two clients and the server. Null pointers and indices out of
--   range are the value `none` of the server and `undefined` of the client. Random draws, typed
--   numbers and the sockets that `poll` reports are arguments. Connecting, drawing and the
--   interleaving inside a round are not modelled. A message that overflows its buffer is undefined.
--   Game/Datagram is the server of cw10/zad2/server.c over datagrams, with its messages in Request;
--   Same and Handle compare what the two servers do to their tables.
--
-- Pizzeria: cooks and suppliers over System V semaphores, cw07/zad1/shared.h, cook.c, supplier.c and
--   main.c. Shelf is the two arrays of the shared memory with their operations, Process the loops
--   of `main` one semaphore operation or memory access at a time, System the interleavings of any
--   number of processes as a step relation. Counts, Goods and Invariant are the induction, Safety
--   and Liveness what follows. `lock_semaphore` of zad1 leaves a flag unset, which tells whether a
--   process that cannot lock waits or exits; `process_step` has it as an argument. Keys, signals and the removal of the memory are not modelled.
--   Pizzeria/Posix is the same pizzeria in cw07/zad2, over named semaphores that outlive a run; its
--   child Same compares the two.
--
-- Chat: the message server of cw06/zad1/server.c: `handle_message` with its five actions, the exits
--   of the process and what `atexit` runs then. Join is about `init_action`, Deliver about the
--   messages that go out, Run about what the server survives. The kernel's queues are the record
--   `Queues`, an argument. Chat/Mq is the server of cw06/zad2/server.c over POSIX queues, and Text
--   the text of its messages in cw06/zad2/shared.h. Chat/Client is the client of cw06/zad1/client.c,
--   from a typed line to the messages sent, with what `exit` runs; Typed follows a line to the
--   server, Session a client that stops. Chat/Mq/Client is the client of
--   cw06/zad2/client.c, whose parent and child share the code; Typed follows a line to the server.
--   What the kernel accepts, and fields that the code leaves unset, are arguments. Dates and the
--   order of delivery are not modelled.
--
-- Santa: the threads of cw09/zad1/main.c over its globals: Threads is the three thread functions, a
--   lock, wait, broadcast or run of writes at a time, World all of them together, in any
--   interleaving. A wait ends by a broadcast, or spuriously where an argument says so. Elves and Reindeers are the two halves of the
--   invariant, Safety what follows. `clean`, which ends the program, is not modelled.
--
-- Blocks: the table of results of cw01/zad1/lib.c, with a table that `remove_array` has freed as a
--   state of its own. What the shell puts in the temporary file is an argument.
--
-- Negative: the threads of cw08/zad1/main.c, `numbers_method` and `block_method`. Share is how they
--   divide values and columns, Picture what they leave. A run is an order of whole threads. File is
--   `load_picture` and `save_negative_picture` on the bytes of a file; Header and Reload are about a
--   picture that is saved and loaded. The loop over the header runs on fuel, one more than the
--   length of the file, for each round but the last reads a byte at least; out of fuel is a result
--   of its own. What unset variables hold is an argument.
--
-- Walk: the recursions over a file tree. Walk itself is cw02/zad3/read_directories.c, with the path
--   that all calls share; Listing and Visits are what it lists. Search is cw03/zad3/main.c,
--   with a process for every directory and with what `stdout` holds back; Wanted and Found are what it
--   writes. The tree does not change meanwhile, and what `lstat` and `readdir` tell is the tree.
--
-- Lines: the loops over a file of cw02/zad1/main.c and cw02/zad2/main.c, in two versions each. Split
--   is a file as its lines, Copy and Find compare. The loops of cw02/zad1 run on fuel, the
--   length of the file and one or two more, for each round but the last reads at least a byte or
--   meets the end. Opening and the measured times are not modelled.
--
-- Signals: the two processes of cw04/zad3a, sender.c and catcher.c, with the signals that are pending
--   at either. A signal is handled at any point where it is not blocked, and of two that are pending
--   either may come first. Steps and Count are about the numbers of signals.
--
-- Not modelled: cw01/zad2, nftw_read_directories.c of cw02/zad3, whose function for `nftw` lacks the
-- result that `nftw` looks at, cw03/zad1, cw03/zad2, the other programs of cw04, cw05, the client of
-- cw10/zad2, and of every program the opening of its files, sockets and queues, and what only prints.
pub mod Common
pub mod Game
pub mod Pizzeria
pub mod Negative
pub mod Lines
pub mod Blocks
pub mod Santa
pub mod Walk
pub mod Signals
pub mod Chat
