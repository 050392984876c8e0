-- ===== src/Lib.antt =====
-- The C core of the robot's software: the containers and times of lib/std_api, the CAN bus of
-- pkg/can_smbus/src/core, which reaches the motor and sensor drivers through up to four gateways, the
-- motors of pkg/robomas, the table of processes of lib/process_comm, and the texts of
-- lib/object_parser.
--
-- How the parts interact. A user's object (a sender, a shared or a signalled register) queues frames
-- in one of three rings of its gateway. The gateway's thread makes packs of at most four frames of
-- them and sends each as a datagram. The thread of reception reads datagrams, drops those whose
-- number is among the last four of their gateway, and hands each frame to the callbacks that are
-- registered for its gateway, device, register and channel; the callbacks fill the users' objects.
-- The motors of pkg/robomas have gateways of their own: orders are datagrams to them, and a thread
-- keeps the last readings that they send. Programs find each other by the table of processes, and
-- exchange values as JSON or msgpack, which a dumper writes call by call and a loader reads by tokens.
--
-- Std.Queue models lib/std_api/src/sa_queue.c: `Queue` is `SAQueue_t`, with an operation for each
--   function (`add` for `SAQueue_add`, and so on). Its cells are items, where the source copies bytes;
--   its indices are of `size_t`, modulo 2^64. Std.Queue.Deque is the sequence that it stands for.
-- Std.Buffer models lib/std_api/src/sa_buffer.c in the same way. `none` is an access out of bounds or
--   a division by zero. The memory is counted in items; theorems bound the items by 2^32, so that
--   no size of at most 1024 bytes an item overflows.
-- Can.Types models io/cs_type.h and io/cs_type.c below pkg/can_smbus/src/core, as do the next ones:
-- Can.Callbacks and Can.Rx model io/cs_rx.c. `Rx` holds the table of devices and the lists of the
--   broadcasts. `Slot` names one of the lists of a device, and `bind_slot` and `close_slot` are what
--   the functions for registers and for both acknowledgements share. A callback is its two addresses,
--   and the calls that a frame makes, in Can.Rx.Receive, are a list. The loop that closes has the
--   length of the list as its fuel: the index grows in each turn, and the length never does.
--   Can.Rx.Bindings has sequences of registrations.
-- Can.Tx models io/cs_tx.c. `round` is what the thread does under the lock, by the loops `pick_loop`
--   and `restore_loop`. Their fuel is the count of the ring that each takes an item from in each turn.
--   Can.Tx.Threads has the steps of the threads in any order.
-- Can.Io models the coding and the numbers of io/cs_io.c. A datagram is its 34 bytes, and `inet_addr`
--   of the C library is a parameter.
-- Can.Data models cs_data.h; a number is given by its bits, and the bytes of the stack that a
--   constructor does not write are an argument.
-- Can.Acks models cs_send_ack.c and cs_request.c, whose loops and callbacks are the same. What comes
--   while a thread waits is an argument, and a wait may end without a signal, as POSIX allows. The
--   loop makes five turns.
-- Can.Share models cs_reg_share.c, where the callback is the list of its three assignments;
--   Can.Signal models cs_reg_signal.c, and Can.System cs_system.c, cs_send.c and cs_manager.c.
-- Can.Arp models cs_arp.c: the frames that come in each of the four waits are an argument, and reach
--   the list of the object through the callbacks that Can.Rx has bound.
-- Std.Time models the functions of lib/std_api/src/sa_time.c in whole units; `time_t` is a word of 64
--   bits, and the time that `clock_gettime` gives is an argument.
-- Process.Table models lib/process_comm/src/pc_table.c. A pointer into the table is the address of its
--   array and a place (`Instance`); `inet_pton` and `htons` are parameters.
-- Robomas.Frames and Robomas.M3508 model pkg/robomas/src/c/rm_m3508.c. The arithmetic of `float` and
--   `double` is the parameter `Floats`, `inet_addr` and `htons` are parameters. The loops that repeat a
--   frame of coefficients have fuel; they make at most three and five turns.
-- ObjectParser.JsonDumper models json/op_json_dumper.c below lib/object_parser/src, and
--   ObjectParser.MsgpackDumper msgpack/op_msgpack_dumper.c, with the packer of msgpack-c as a parameter.
--   The loop that prints an integer has fuel for 20 digits, and 2^64 has 20.
-- ObjectParser.Jsmn models json/jsmn/jsmn_interface.c on the tokens of jsmn, whose parser is a
--   parameter; ObjectParser.Jsmn.Trees says when tokens are laid out as a tree.
-- ObjectParser.JsonLoader models json/op_json_loader.c. A token is a pointer into a buffer that may
--   move when it grows; where it is then is an argument.
-- ObjectParser.MsgpackLoader models msgpack/op_msgpack_loader.c on the objects that msgpack-c unpacks.
-- Common passes on what all share: tests into Bool, lists over the native numbers, arithmetic modulo
--   2^64 and tables over all bytes.
--
-- Locks are not modelled: what a thread does under a lock is one step. The log, the release of memory
-- and the checkers of objects have no effect on the state and are left out. Sockets, threads, clocks
-- and files belong to the operating system. The communication of processes, the copies of
-- jsmn and msgpack-c and everything in C++ are not modelled.
pub mod Common
pub mod Std
pub mod Can
pub mod Process
pub mod Robomas
pub mod ObjectParser
