-- ===== src/Lib.antt =====
-- Verification of the C++ bindings of libcusp, and of the queue behind an out stream.
--
-- libcusp is a transport protocol implemented in Standard ML. Programs in C++ use it through the
-- classes of libcusp/cusp/cbindings/include (cusp.h, cusp.cpp). An object of such a class holds
-- one integer, a handle: the SML side of the bindings, libcusp/cusp/cbindings/libcusp.sml, keeps
-- the object that the handle stands for in a table, libcusp/util/container/id-bucket.sml.
-- Copying a C++ object duplicates its handle, destructing it frees the handle, and each method
-- calls an exported SML function with the handle, which looks the object up and calls the
-- protocol engine. The engine calls back with a function and a pointer that came with the
-- request. libcusp/cusp/cbindings/util holds helpers in C++ on top of the classes. Behind the
-- engine's `write`, `shutdown` and `reset` of an out stream stands
-- libcusp/cusp/stream/out-stream-queue.sml, which keeps the data until the other side has
-- acknowledged it.
--
-- The files and the code they model:
-- - Base, Ml: shared lemmas, and what the SML basis gives: exceptions, results and signed
--   integers.
-- - IdBucket: id-bucket.sml, each function as a function on the table. Its children define the
--   free list and prove what each operation does.
-- - Runtime: libcusp.sml. Engine is the signature that it opens, World the thirteen buckets and
--   the log of the engine calls, with the monad of calls into the SML side; Handles is
--   bucketOps; Exports has each exported function under the name that C++ calls.
-- - Cusp: cusp.cpp and cusp.h. Ref is what the handle classes have in common and Classes the
--   thirteen of them; Init the library's life cycle; EndPoint, Address, Host, Iterators,
--   InStream, OutStream, Event, Keys and SuiteQueries the methods and callbacks, Suite the sets
--   of suites. Lifecycle and Behaviour state what holds of them.
-- - Util: cbindings/util. Memory has realloc and memcpy; BufferedOutStream,
--   AbortableContactHandler, BiDiConn, SingleCycle and SingleMessage have the classes of the
--   files of these names, with what the client's own handlers do as a parameter. A heap object
--   that is deleted is absent, and a call of it is a memory fault.
-- - Stream: OutStreamQueue and OutStreamQueue.Pull are out-stream-queue.sml; Heap is what it
--   uses of libcusp/util/heap/managed-heap.sig, and ListHeap shows that a sorted list does it.
--   Client is the code that calls the queue back from its callbacks, History what may have
--   happened to a queue, and the other children state what holds then.
-- - Demo: cbindings/demo. Server is server.cpp, with what it lists in Lists and its main program
--   in Main; Client is client.cpp, with its main program in Main. The other children state what
--   holds of them.
-- - Tests: concrete inputs.
--
-- How the code is modelled. A method is a function from the world to a run, which returns a
-- value and a world, or stops: at an assertion, which is compiled in, on an SML exception that
-- nothing handles, on an exception of the engine, or at an access outside of the memory. Handles
-- and ids are integers without a bound, since the tables are bounded by the memory before a
-- 32-bit integer overflows. Suites and sets of suites are numbers below 2 ^ 16, with the cut to
-- 16 bits written out. A size_t is cut to 64 bits. A float is its bit pattern, a string the list
-- of its bytes, a pointer with a length the list of that many bytes, without the case of a
-- negative length, an iterator the list of the values that are left.
--
-- The engine is a parameter: its answers may depend on every call so far. Handlers and user data
-- are pointers, of which only NULL is known. A callback is a step of its own, after the call
-- that asked for it has returned. out-stream-queue.sml calls a writer back within `write` when
-- nothing waits for transmission; in bufferedoutstream.cpp this makes no difference, since that
-- `write` is the last thing its method does, or is made within onReady, while data waits. For
-- the other classes it is a simplification, as it is for a read of bytes that are there already
-- and for calls on a stream that was reset.
--
-- The out-stream queue is a value that each function returns anew. Its writers and shutdowners
-- are pointers, and what they do to the queue within a callback is a function of the notice and
-- the queue; Client gives the one that makes calls from a script, nested to any given depth. A
-- queue also keeps what `write` has accepted, what has left the buffer and which segments have
-- arrived: the theorems speak of these, and no function reads them. A packet is known by its
-- segments, its offset and its end mark. An offset is a 32-bit word with the wrap-around written
-- out.
--
-- A main program, like the functions of SingleCycleConn that block in cuspMain, is a function of
-- the events that the library delivers while its main loop runs. Whatever the demo programs
-- print is left out, but not the calls for the texts.
--
-- Loops: the loops of the demo programs over an iterator, and the recursion of
-- pullContiguousSegments, have a bound on their rounds; the theorems say which bound is enough.
-- The loop of `next` runs at most sixteen rounds, as in the source. Iterating over a set is on
-- fuel: sixteen rounds are enough for a set of sixteen bits. The loop in
-- BufferedOutStream::allocBuf has a fuel of 64: its condition fails at once, since the new size
-- starts at no less than what is asked for.
--
-- Not modelled: the protocol engine other than the out-stream queue, with the in-stream queue,
-- the channels and the bytes of packets; the heap's implementation in managed-heap.fun;
-- cryptography and system support, which are kernels in C and assembler and system calls outside
-- of the bindings.
pub mod Base
pub mod Ml
pub mod IdBucket
pub mod Runtime
pub mod Cusp
pub mod Stream
pub mod Util
pub mod Demo
pub mod Tests
