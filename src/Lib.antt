-- ===== src/Lib.antt =====
-- The Yima streaming server (myyima/Server), an RTSP video server of several cooperating parts. The
-- RTSP front end talks to clients and passes their requests on to the RTSP back end, which sends
-- them to the nodes. On a node the system monitor starts and stops sessions, the scheduler sends
-- their RTP packets, and the file library hands those packets out of block files on disk.
--
-- The front end, the back end, the node, its clock and the file library are modelled.
--
--   Messages: the messages between the modules (sysinclude/Yima_module_interfaces.h). A union with
--   its tag is one data type. Session ids and addresses are natural numbers.
--   Rtsps/Back: RunBackend of RTSPS/rtsps_back.c. `Backend` is the table `reqtable` with
--   `numnodes`; `on_link` is the branch for a message of the front end, `on_node` the one for a
--   response of a node, `step` one message and `run` any sequence of them. Rtsps/Back/Table has the
--   well-formed tables and the number of responses due to a session, Rtsps/Back/Refinement what each
--   branch does to that number, Rtsps/Back/History what a run does to it.
--   Rtsps/Front: ConvertSID of RTSPS/rtsps_front.c, with its 64-bit arithmetic; Rtsps/Front/Sids
--   has what it does to ids of SID_LEN digits. Rtsps/Front/States: NextState.
--   Rtsps/Front/Connections: the table of connections and what RunFrontend keeps.
--   Rtsps/Front/Requests and Rtsps/Front/Responses: ConvertRequest and ConvertResponse, from and to
--   the bytes of a text. `Host` is what the code asks of its host. Rtsps/Front/Run: the branches of
--   RunFrontend. Their theorems stand in Rtsps/Front/Connections/Entries (the entries that are
--   found), Rtsps/Front/Requests/Sent and Rtsps/Front/Run/Accepts (what a request sends),
--   Rtsps/Front/Run/Replies (texts read back) and Rtsps/Front/Run/Events (runs).
--   Rtsps/RoundTrip: the front end over the link to the back end and back.
--   Text and Text/Numbers: what the server uses of C's string functions.
--   Flib/Names and Flib/Retrieve: names of block files, movies and reading of blocks
--   (FLIB/retrieve.c). The files and the order of C floats are fields of `Disk`.
--   Flib/Config: InitDisks, InitMovies and InitFileSystem of the same file, and Flib_init, which
--   make that `Disk` from the configuration and the metadata of the movies. Text/Scan has fscanf and
--   fgets on the bytes that are left, Outcome/Loops a loop as rounds. What `%f` reads and what
--   stands in new memory are fields of `Host`. Flib/Config/Ends has the end of the loops, Flib/Config/Entries and
--   Flib/Config/Written the files that are put together from entries.
--   Flib/Cache: localReadBlock and releaseUsedBlock of FLIB/interface.c on the list `usedBlocks`.
--   Flib/Cache/Counts and Flib/Cache/Calls have the users of each block, Flib/Cache/Places where
--   blocks are found. What malloc answers is a
--   parameter, known to return NULL or an address that is not in use.
--   Flib/Interface: the Flib_ functions of FLIB/interface.c on the lists `sessions` and
--   `usedBlocks`. Flib/Interface/Balance has the invariant that each block has one user for each
--   pointer that is held, Flib/Interface/Opening and
--   Flib/Interface/Play what Flib_play does to it, Flib/Interface/Packets the
--   packets inside a block, Flib/Interface/Ending the end of a movie.
--
--   Node: the threads of SCH_SYSMOND/scheduler_sysmon.cc. Node/Session has struct Session_T and what
--   the threads share, Node/Receive the requests (sysMon_recv), Node/Respond the answers of the file
--   library (run_sysMonD_rsp), Node/Files the thread of the file library (FLib_main), with the
--   users of each block in Node/Files/Balance. Node/Scheduler has play_session in two halves,
--   calculateMinInterval and the end of run_scheduler's visit of a session (Node/Scheduler/Interval:
--   how long it sleeps), Node/Play the whole loop of play_session with what other threads do in
--   between (Node/Play/Packets counts the packets that are left, Node/Play/Turns the turns), Node/Rtp
--   the header of a packet and Node/Rtp/Wire what goes out on the wire.
--   Node/Events interleaves the threads, and `Reach` has the states that an order of events leads to.
--   PAUSE, RESUME and the answer to PLAY change a session's state and then numOfPlayingSession, with
--   no lock over both: they are two events, the second one an update that is owed. The second half
--   of a turn of play_session is two events, the look at the session's state and the write after
--   Flib_getNextPacket. Other handlers are one event. Node/Count follows numOfPlayingSession,
--   Node/Count/Race a PAUSE at the end of a movie, and Node/Ids the ids of the sessions.
--   Clock: the clock of the scheduler (SCH_SYSMOND/OS.cc). Its readings are arguments there, and the
--   times that it gives are arguments of the node's operations.
--
-- A call ends in an `Outcome`: a value, the end of the process (Assert, exit), or C's undefined
-- behaviour (an overrun buffer, an uninitialised name). The lists of the source are linked lists
-- that only their module reads and writes, so they are lists here, in the order of the links.
-- Every loop is structural recursion; `decimal`, the digits of a number, has a fuel of one more
-- than the number, which is enough since each digit divides it by ten, and a loop over a file has
-- two more than the file has bytes, which is enough since each round reads a part of it. The loop of play_session is
-- a recursion on a list of turns, and ends before the list does if the list is long enough. Times
-- are integers without bounds, since 64 bits of microseconds do not run out.
--
-- Not modelled: sockets and their errors, printing, the start of the threads, and the library qpthread-1.3.1 with its threads
-- and queues. A field that no operation reads (`numpkts`, `pktsize`, the file names of a movie) is left
-- out.
pub mod Prelude
pub mod Outcome
pub mod Messages
pub mod Text
pub mod Rtsps
pub mod Flib
pub mod Node
pub mod Clock
