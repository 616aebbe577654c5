-- ===== src/Lib.antt =====
-- The sampling profiler: an agent that the JVM loads, and the Java program that reads its files.
--
-- A Java program starts a profile with the path of a file. From then on the process gets SIGPROF 50
-- times for each second of processor time. The handler asks the JVM for the stack of the interrupted
-- thread and adds it to the collector, a hash table with an eviction buffer in front of the file.
-- When the profile is stopped, the table and the buffer go to the file, which the Java reader sums up.
--
-- The parts, with their sources (profiler-agent/src/main/cpp, profiler-agent/src/main/include and
-- profiler-java/src/main/java/com/fathomdb/profiler):
--   Run            the ways in which the process can end: the checks of config.h, assertions, accesses
--                  outside arrays, and a signal
--   Os             the system calls of profiledata.cc with `FDWrite` (Os/FdWrite), which is a loop over
--                  the kernel's answers
--   Slot           `Slot` of profiledata.h, and its bytes in the buffer
--   ProfileData    the class `ProfileData` of profiledata.cc: `start`, `evict` and `flush_evicted` are
--                  the members of those names, as are `stop` and `reset` in ProfileData/Stop and
--                  `flush_table` in ProfileData/FlushTable
--     Add          `ProfileData::Add`, in the steps of its body: hash, search, victim, replacement
--     State        `ProfileData::GetCurrentState`
--     Emit, Drain  what each operation sends to the stream, which is the file and the buffer together
--     Sample, Tally, Clear
--                  the samples that a table and a file stand for, and their counts for each stack
--     Placed       the bucket that a stack's entry is in
--     Tracks       the invariant of an enabled collector, with one module for each operation: Control
--                  for `start` and `stop`, Add, and Flush; Single counts a stack's entries
--     Session      a start, any calls of `add` and `flush_table`, and a stop: its file (Exact) and
--                  the table before the stop (Single)
--     Bag, Abstract
--                  what profiledata.h promises of its public members, on a bag of stacks, which
--                  forgets the order of samples (a quotient); Abstract/Refines relates the members to it
--     Isolation    the files that the members leave alone, whatever the kernel answers
--   Reader         `ProfileData.read` of ProfileData.java; `readSample` is an argument of `read`, since
--                  it is overridden
--     Analyze      `ProfileData.analyze`; SelfCount joins it to a session of the collector
--     Reduce       `getReduced`, `translateStack` and `getTotalCount`: the paths of names (Paths) and
--                  the flat and cumulative profiles of them (Profiles)
--   ProfilerUtils  ProfilerUtils.java: counts by key, and what is charged to each (Charges)
--   DotGraph       DotGraph.java: the nodes that `printDot` chooses (Chosen) of its sorted keys (Sorted),
--                  the labels of edges (Labels), the edges that it keeps (Kept) and prints (Printed)
--   JavaProfileData
--                  JavaProfileData.java: `readSample` with the numbers of its locations, and
--                  `getMethodName` with its search of a line table (SourceLine)
--     Numbering, Resolve, Size, Frames, Termination
--                  the numbers and the locations, and the stacks that arrays of numbers stand for
--     ByMethod     the reduced profile by the names of the methods, of a finished profile (Exact)
--   JavaProfiler   the class `JavaProfiler` of java_profiler.cc, its signal handler, `onJvmStart`,
--                  `onJvmStop`, `startProfiling`, and the JNI entries `start0` and `stop0`
--     Phase        idle and active, and how the operations move between them
--     Signals      the handler
--     Deferred     `startProfiling` before the JVM runs, twice, and with a long path
--     Hazards      traces without a frame, and signals while the handler is not installed
--     Events       any sequence of calls, callbacks and expirations of the timer, from either phase
--                  (Settings, Phases, Operations, Safety, Profile, Methods), from the constructor
--                  of the singleton to its destructor (Lifetime), and what it leaves alone
--                  (Isolation)
--     Machine      the single steps of Start, Stop and FlushTable of one thread (a call of `sigaction`,
--                  `setitimer` or the collector), with signals between any two of them: the
--                  points between steps (Points), signals at any of them (Windows) and the order that
--                  they amount to (Linear)
--   Agent          agent.cpp: `Agent_OnLoad` (Agent/OnLoad), `OnClassPrepare` (Agent/ClassPrepare),
--                  the callbacks for the JVM's start and end (Agent/Callbacks), `getMethodInfo0` and
--                  `getLineNumberTable0` (Agent/MethodInfo, Agent/LineTable)
--   Tests          the theorems at concrete inputs
--   Base           lists, integers and bits that the parts share
--
-- The state of a component is a record that its operations take and return. An operation that can end
-- the process returns a `Run`, and `Returns r P` says that `r` is a value with the property `P`. In
-- JavaProfiler/Events a signal is delivered between two operations, which is what the comments of
-- profiledata.h demand; in JavaProfiler/Machine it is delivered between their steps. A call of the
-- collector is one step, since the timer is disarmed around it.
--
-- Numbers. A slot and `total_bytes_` are below 2 ^ 64, and `count_` and `evictions_` are 32-bit
-- patterns, with their wrap-around written out. The theorems take fewer than 2 ^ 64 samples, the most
-- that a count of the table can hold. The reader narrows a count to 32 bits, so its theorems take
-- fewer than 2 ^ 31, and fewer than 2 ^ 25 where every location must have a number below 2 ^ 31. Bytes
-- are those of a little-endian machine with 64-bit pointers.
--
-- Loops are structural, over the depth, the entries, the buckets or the answers of `write`. The loop of
-- the reader takes fuel, one more than the file has bytes: a turn reads at least one byte, or finds none
-- left and ends in an exception.
--
-- What code outside the repository does is an argument: `Os` holds the coming answers of `open` and
-- `write`, `Signal` those of the JVM during a signal, and the records `Answers` of the modules under
-- Agent those of JVMTI and JNI, with `error_block` of `Agent` for `GetErrorName`. An answer of `write`
-- is an error or a number of bytes, of which no more are taken than were offered. In Java, `Natives`
-- holds the answers of the native methods, and `show` is the text of a name with its numbers in
-- decimal. A state in which the collector is open or the profiler idle or active is one where no coming
-- answer of `write` is an error, since a failing write ends the process (`fd_write-all_or_abort`).
--
-- Not modelled: the text of messages and names beyond the values in them, memory that runs out in `new`
-- and `strdup`, two threads inside the control operations at once (profiledata.h asks its caller for a
-- lock, and java_profiler.cc has it commented out), the code that is commented out in java_profiler.cc
-- and profiledata.cc, and in Java the top lists of a profile, the layout of its graph (the sizes and
-- weights that DotGraph computes in floating point, of which its two limits are arguments here) and the
-- entry points (dumpTopNSelf, dumpTopNCumulative, Main and JvmAgent), which print or call the Java
-- library.
pub mod Base
pub mod Run
pub mod Os
pub mod Slot
pub mod ProfileData
pub mod Reader
pub mod ProfilerUtils
pub mod DotGraph
pub mod JavaProfileData
pub mod JavaProfiler
pub mod Agent
pub mod Tests
