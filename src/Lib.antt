-- ===== src/Lib.antt =====
-- kiss-smpp: the SMPP client daemon ksmppcd (ksmppc/src).
--
-- A SessionManager (ksmppc/src/session_manager.cpp and .hpp) keeps one connection to a message
-- centre. It binds, answers enquire_link and deliver_sm, sends the PDUs that send_pdu is given through
-- a queue with three priorities, keeps a map of the requests that wait for a response, and watches
-- the link by timers. Every handler runs on one io_service. The class ksmppc feeds it: a send handler
-- puts submit_sm PDUs in a buffer that sendingProcessor empties into the session, and recieveProcessor
-- turns what the session received into requests to another server.
--
-- Which file models what:
--   Smpp            the identifiers of ksmppc/src/smpppdu_queue.hpp, PDUs, the pointers to them of
--                   ksmppc/src/sharedsmpppdu.hpp, which may be null, and the smpp_pdu library as
--                   a record of functions and facts; Smpp.Commands is the switch over identifiers,
--                   Smpp.Standard an instance with the numbers of the protocol
--   Config          ksmppc/src/util.cpp, bind_type.hpp, smpp_session_config.hpp; Config.Loads is when a
--                   configuration can be read
--   TransmitQueue   ksmppc/src/transmit_queue.hpp over the kisscpp queue as an interface
--   Sequence        SequinceNumberGenerator; Throttle: throttle_check; Waiting: timeStampedPdu, w4rQ
--   Session         the members of SessionManager; a handler is a function from the session to an
--                   Outcome (ok, an exception with the session it leaves, or undefined behaviour)
--   Session.Write, Close, Send, Timers, Receive, Process, Handlers
--                   the functions of session_manager.cpp under their own names in snake_case
--                   (write_pdu, do_write, handle_write, close_session, process4state, procpdu_unbind)
--   Session.Loop    the io_service: the operations that were started, the timers and the calls of other
--                   threads as a step relation
--   Session.Locks   the mutexes: what each function locks, and the threads that take turns
--   Session.Races   do_write of one thread while close_connection of another clears the queue
--   Session.Stable  predicates that every handler keeps, for the invariants over all runs
--   Session.Stall, Window, Drains, Flood, Lossless, Ageing, Invariant, Overlap, Awaiting, Awaited,
--   Expiry, Reconnect, Recovery, Settled, LinkFailure, Sending, Receiving, Binding
--                   what is proved of the session
--   Session.Diagram, Session.Winding
--                   the states of a session as a small machine that every run refines; how a session that
--                   was stopped runs out of work
--   Coder           SmppPduBase64Bicoder of ksmppc/src/smpppdu_queue.hpp; Coder.Dump is its ppdustr, with
--                   the log as a list of what is written to it
--   Buffers         the two buffers of a RawPdu (ksmppc/src/rawpdu.hpp) on a heap of blocks
--   SendHandler     SendHandler::run of ksmppc/src/handler_send.cpp
--   Daemon          ksmppc/src/ksmppc.cpp: one pass of recieveProcessor and of sendingProcessor, and the
--                   request that a received message becomes; Daemon.Start is the constructor and the
--                   destructor, Daemon.System the daemon at work: the steps of the session, the two
--                   processors, the send handler and the destructor in any order; Receives, Forwards,
--                   Retries, Sends, Delivers, Keeps, Lasts, Preserves, Outgoing, Nulls, Restart,
--                   Stuck, Ends and Works are what is proved of it
--   Main            ksmppc/src/main.cpp
--   Tests           a platform to compute with, and the theorems at concrete inputs
--
-- Numbers are naturals; `unsigned` and `uint32_t` counters wrap at 2^32 where the code adds to them. The
-- clock is in microseconds, and `time(NULL)` is its seconds. The loop of w4rQ_age_cleanup is a recursion
-- on the map and that of ppdustr on the rounds that are left, so no fuel is used; the loops of the
-- daemon's processors do not end, and what is stated of them is stated for every number of passes.
--
-- Not modelled: logging, statistics (ksmppc/src/stat.hpp) and print_pdu with the hex_dump of the
-- smpp_pdu library, which nothing else reads; the endpoints that the resolver finds (whether it
-- finds any is a parameter); the dispatch of requests by kisscpp; what one thread sees of another in the
-- middle of a handler, a pass or a request (each is one step; Session.Locks has their mutexes,
-- Session.Races one do_write in pieces, and Daemon.Ends the destructor around it); when a write of the
-- members that no mutex guards, such as the state of the session and `running`, is seen by another thread
-- (a read sees the latest one); the encoding of PDUs to bytes (a parameter of Coder); the persistence of
-- the kisscpp queues and the server of kisscpp; build files and packaging.
pub mod Common
pub mod Smpp
pub mod Buffers
pub mod Coder
pub mod Config
pub mod Daemon
pub mod Main
pub mod TransmitQueue
pub mod SendHandler
pub mod Sequence
pub mod Throttle
pub mod Waiting
pub mod Session
pub mod Tests
