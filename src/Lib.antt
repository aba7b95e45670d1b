-- ===== src/Lib.antt =====
-- Verification of the programs in this repository: C++ exercises in sockets, threads and
-- processes.
--
-- The network library `netapi` (socket/netapi). A client composes a message as text, a head of
-- padded fields and a body, and sends it; a server accepts connections, starts a thread for each,
-- and each thread reads heads and bodies, registers senders, prints messages for itself and
-- relays the others.
--   Msg (msg.cpp): `Msg`, `serialize` and the paddings, over lists of bytes.
--   Netapi (netapi.cpp): Netapi.State is the object and its effects, Netapi.Startup its
--     constructor over the record `SocketApi` of the socket interface, Netapi.Receive the
--     handlers of a head and a body, Netapi.Send the sending side; the files below prove what
--     they do.
--   Client (client.cpp): the constructor, registration, heartbeat, deregistration.
--   Server (server.cpp): the constructor, the accepting thread and the threads of
--     `msghandlecalling`, as a step function on the shared object; an event is one step of one
--     thread, and a call of `handle_msghead` is one step. Server.Steps has the cases of an event
--     that happens; Server.Life, Stays and Races follow the threads and the table.
--     Server.Phases makes a step of each call of the kernel in `handle_msghead`, so that the
--     threads take turns inside it; its children relate the two models and follow the table.
--     Server.Switch is what the server promises, a switch between mailboxes that takes whole
--     letters, and Server.Refinement relates the runs of the server to it. Netapi.Registry is
--     the table of receivers up to the order of its entries.
--   TestPrograms (client_test/main.cpp): the client, and the server of server_test/main.cpp that
--     it writes to.
-- The web server (httpserver/main.cpp), one thread on `epoll` and one that removes old clients.
--   Http.State: `fds`, the mutex, and the system calls made. Http.Transfer: `readn`, `writen` and
--     the other helpers. Http.Handlers: the branches of the event loop, `check_time_out` as a
--     test and a removal, and runs of both threads. Http.Startup: `main` before the loop, and the
--     choice of the branch.
-- The thread control (api/threading_ctrl.cpp), and the sender (socket/sdr/my_sdr.cpp) and
-- receiver (socket/rcvr/my_rcvr.cpp) that use it: `main` starts threads as `threadingctrl`
-- permits, and they send or receive a file, or one message each.
--   Threading.Control: the class `threadingctrl`. Threading.Sender: `main` and `sending_thread`,
--     as steps on the shared state. Threading.Tasks, Queue, File, Copy, Messages and Limit prove
--     what they do with either FILEFLAG. Threading.Receiver: the receiver, in the same way.
--     Threading.Bound, Transfer and Peek prove what it does, alone and after the sender.
--     Threading.Startup: both programs from the start of `main`.
-- The file of both (api/file_ctrl.cpp): FileCtrl is the class `filectrl`, over FileCtrl.Fstream,
-- what it uses of `fstream`, and a record of the operations on doubles; FileCtrl.Checks follows
-- the reports while the file is read.
-- The two chat programs (socket/talk/chatchit/client.cpp, socket/talk/chitchat/client.cpp), which
-- differ in their ports alone: Talk.Start sets them up, Talk.Sending is the loop over the lines
-- that are typed and the threads that send them, Talk.Receiving the thread that displays; the
-- other modules prove what they do, Talk.Dialogue from one program to the other; Talk.Programs is
-- both from the start of `main`.
-- The message counters (cs/send/main.cpp, cs/recv/main.cpp): Cs.Sending, Cs.Receiving, and
-- Cs.Counts for both.
-- The child processes (system_function/main.cpp): System.Command is `mysystem` and the loop of
-- `main`, System.Handler the handler of SIGCHLD, over the record System.Kernel of what `waitpid`
-- is documented to do; System.Stolen is about both together. The handler's loop has fuel: one
-- round for each ended child and one more.
-- The copied object (copy-constructor/main.cpp): CopyConstructor.Memory is a heap whose faults
-- stand for undefined behaviour, CopyConstructor.TestClass the class and `main`.
-- The countdown (volatile/main.cpp): Volatile is the loop and the handler of SIGALRM,
-- Volatile.Counting when the loop ends.
-- The member function as a thread (memberfun_threading/memberfun_threading.cpp): MemberThread is
-- `main`, `createThread` and its threads on the one object, MemberThread.Ones and
-- MemberThread.Hellos what they print.
-- The C programs on shared libraries (libtest/source) and on strings (c_str/main.c): LibTest and
-- LibTest.Sums, CStr and CStr.Copying.
-- The programs that show a feature of the language (static, try-catch, virtual_base, virtual_fun,
-- base-derived_compatibility): Features, as the lines that they print.
-- Http.Protocol is the automaton that the calls on one descriptor obey, and Http.Refinement
-- relates the runs of the web server to it.
-- Base holds what the parts share: bytes, signed integers, maps, decimal numerals, lists.
-- Examples applies the theorems at concrete inputs.
--
-- The kernel is not modelled. What its calls answer (`recv`, `read`, `write`, `accept`, `bind`,
-- `epoll_ctl`, `pthread_create`) is an argument or part of the state, as a list of answers to the
-- calls in their order; where the list ends, the call is still waiting. Loops recurse on those
-- lists, so they need no fuel, but for the handler. The decimal numerals have 20 rounds, one for
-- each digit of the largest number of 64 bits; the programs print no larger ones.
-- Threads interleave at the steps between which the code does not hold a lock; a step under a
-- mutex is one step.
--
-- Not modelled: printing, but for the contents of messages and for whether a debug print of netapi
-- reads past its buffer (`overread`), which is taken to change no memory; time; getrusage and
-- forkbomb, which only call the kernel, and the build files. That the threads of netapi share the
-- table and the queue without a mutex is left out too: what they do between two calls of the
-- kernel is one step.
pub mod Base
pub mod Msg
pub mod MemberThread
pub mod Netapi
pub mod Client
pub mod Server
pub mod Http
pub mod Threading
pub mod Talk
pub mod Cs
pub mod System
pub mod CopyConstructor
pub mod FileCtrl
pub mod TestPrograms
pub mod Volatile
pub mod Features
pub mod LibTest
pub mod CStr
mod Examples
