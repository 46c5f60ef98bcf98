-- ===== src/Lib.antt =====
-- sdr-server shares one software-defined radio among many clients over TCP. A client asks for a
-- frequency and a rate; the server tunes its one device, and a DSP thread for each client takes
-- the device's buffers through a queue, filters them, and writes the result to a file or back to
-- the client.
--
-- The parts, and the files that model them:
-- - Wire: the packed structures of src/api.h as bytes, with the byte order conversions of
--   src/tcp_server.c and src/client/tcp_client.c.
-- - Socket: the loops around recv and write. What the system answers is a list of outcomes.
-- - Config: the data of src/config.h; Config.Loading is src/config.c, where libconfig, the
--   environment and malloc are parameters, and Config.Ledger what it allocates and frees.
-- - Queue: src/queue.c on an explicit heap of linked nodes, with its memory in Queue.Memory;
--   Queue.View is what it promises, and Queue.History runs whole histories of a producer and a
--   consumer. A call is one step, since the code holds the mutex throughout.
-- - Server: src/tcp_server.c. Server holds the tests of a request, Server.Admission the
--   acceptor's work on a connection, Server.World the state behind the mutex, and
--   Server.World.Steps the interleavings of the acceptor, the client threads and the shutdown
--   thread as a step relation; Server.Session is the loop in which a client's thread reads, and
--   Server.Start is start_tcp_server and stop_tcp_server, and Server.Closing the end of the
--   acceptor, which waits for all threads and destroys the device. Server.Program is src/main.c.
-- - Lpf: src/lpf.c, the taps of a low pass; Lpf.Count is about their number and the errors, and
--   Lpf.Shape about the taps themselves.
-- - Xlating: src/xlating.c, the filter. Xlating holds the history, the loop and the copies that its
--   variants share; Xlating.Cf32, Xlating.Simd and Xlating.Optimized the variants for float
--   samples, Xlating.Cs16 the one for 16-bit samples; Xlating.Reference is what they compute,
--   Xlating.Refine and Xlating.Stream compare the two; Xlating.Create makes and destroys a filter.
-- - DspWorker: src/dsp_worker.c, the buffers of a client with the filter as a parameter, and
--   DspWorker.Setup, which joins Lpf and Xlating as the start of a worker does. DspWorker.Thread
--   runs the thread against Queue while buffers arrive, DspWorker.Samples puts the filter of
--   Xlating into it, and DspWorker.Launch makes all three as dsp_worker_start does;
--   DspWorker.Clients runs the threads of several clients against sdr_callback of src/tcp_server.c.
-- - Driver: the four drivers of src/sdr, as sequences of checked calls of their libraries, and
--   Driver.Loader, the src/sdr/*_lib.c files that load those; Driver.Plugin makes and destroys a
--   driver, and Driver.Rtlsdr.Reading and Driver.Msisdr.Reading are the threads that read a device.
-- - SdrDevice: src/sdr_device.c, the life of the device and its plugin.
-- - Client: src/client/tcp_client.c, the other end of the protocol, Client.Connect, what a
--   connection holds, and Client.Program, the program of src/client/tcp_client_main.c around it.
-- - RtlTcp: src/rtltcp_server.c, an rtl_tcp server for MSi receivers: RtlTcp holds its commands,
--   RtlTcp.Samples the conversion of samples, RtlTcp.Slots the table of clients, RtlTcp.Streaming
--   the thread that reads the device, RtlTcp.Program the options, the signal handler and the loop
--   that accepts clients, RtlTcp.Startup what the start acquires, and RtlTcp.Joining the clients'
--   threads up to the joins at the end.
-- - Logger: src/logger.c, the file that is rotated by size.
--
-- Numbers are natural numbers; `uint32_t` arithmetic that can wrap is written with its modulus,
-- and C's `int` is an integer of the model; where an `int` is computed with, in the differences of
-- gains and the sums of the 16-bit filter, it wraps. The loops around recv and write recurse on the list of outcomes or
-- on the bytes left, so they need no fuel. The loops that read message after message and the
-- loop that frees a list count their rounds, and theorems say how many are enough.
--
-- Floats are parameters: a record of operations on `float complex`, whose laws are hypotheses where
-- a theorem needs one, and the quotients and conversions that decide how many taps there are. The
-- 16-bit filter is modelled on integers, bit for bit. The loop over the positions of the working
-- buffer has fuel for one round more than it has samples, and is shown never to run out.
--
-- Not modelled: third_party/libmsisdr, the text of messages and logs, and the local address that
-- src/rtltcp_server.c prints.
pub mod Prelude
pub mod Logger
pub mod Wire
pub mod Socket
pub mod Config
pub mod Queue
pub mod Lpf
pub mod Xlating
pub mod Server
pub mod DspWorker
pub mod Driver
pub mod SdrDevice
pub mod Client
pub mod RtlTcp
mod Tests
