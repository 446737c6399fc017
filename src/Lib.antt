-- ===== src/Lib.antt =====
-- Columbo: end-to-end traces of SimBricks simulations, made from the logs of the simulators.
--
-- The program reads the log files of host, NIC and network simulators, parses each line into an event,
-- sends the events through a pipeline of filters to a spanner for each simulator, which groups them into
-- spans, and joins the spans of all the simulators into traces. Parsers, filters and spanners are coroutines
-- that are connected by channels; spanners also hand each other contexts through channels.
--
-- Files and code. Paths are those of the repository.
--   Base             the shared names and lemmas: tests on ℕ, lists, options.
--   Channel          include/sync/channel.h. NonCoroBuffered is NonCoroBufferedChannel with its base class
--                    NonCoroChannel, NonCoroUnBuffered is NonCoroUnBufferedChannel, CoroBounded is
--                    CoroBoundedChannel with its base class CoroChannel, CoroUnBounded is
--                    CoroUnBoundedChannel; Buffered holds the ring buffer that two of them share, and Sink has
--                    NonCoroChannelSink and CoroChannelSink, which drop what they get. A method is
--                    a function from the channel to its outcome: it waits on the condition variable, a failed
--                    assert aborts it, it throws, or it returns a value, with whether it notified the
--                    waiters. One method runs at a time, under the lock, so that a history of a channel is a
--                    list of calls. Queue is what a channel promises, a plain queue that may be closed or
--                    poisened (WaitTillValue is a call of NonCoroBuffered only, so the calls have a
--                    parameter that says whether a class has it); Client is what a client can rely on, for every implementation of the
--                    interface Implements; Instances fills it; Histories says what that comes to for
--                    each class.
--   Pipeline         include/sync/corobelt.h: RunPipelineImpl, and the tasks Produce, Handel and Consume that it
--                    starts, over CoroBounded. A state is the program counter of each task with its channel
--                    and its handler; a step is one move of one task or of the coroutine that waits for
--                    them, and a run is any sequence of steps. A producer is the list of the values it yields,
--                    a handler is a function of a state of its own, and a consumer is the list of what it
--                    got. The executor that runs the coroutines is not part of the repository: any order in
--                    which it takes the tasks is a run.
--   Chars            the character classes of include/util/string_util.h, and strtoul and strtol of the C
--                    library on a text that begins with a digit.
--   LineHandler      include/reader/cReader.h, source/reader/cReader.cpp: the cursor in one line. Its memory is the
--                    line and what the buffer holds behind it, since ParseUintTrim and ParseInt read on behind
--                    the line; a read behind the memory is a fault, `none`. Rest is what is left to read, as a
--                    list of bytes; the other modules say what each method does to that list; Till has
--                    ConsumeAndTrimTillString, on its own, Cursor and Resets are about any
--                    sequence of the methods, and View is the interface for clients.
--   StringInternalizer  include/env/stringInternalizer.h. An address is the position of the string in the order in
--                    which the set took it in.
--   SymsFilter       include/env/symtable.h, source/env/symtable.cc: the table of symbols by address, as a list of its
--                    entries in key order; what it is loaded from is the list of the LineHandlers of a file.
--                    Valid has the partial map that a table stands for. Symbols says
--                    which symbol a line of each format has, and Create what a whole file comes to.
--   Span             include/analytics/span.h, source/analytics/span.cpp: spans, which are state machines on the events of
--                    one parser, with the events (include/events/events.h, include/events/eventType.h) cut down to
--                    what a span reads of them. Host has HostDmaSpan, HostMmioSpan, HostIntSpan, HostMsixSpan and
--                    HostPciSpan, Nic has NicDmaSpan, Call has HostCallSpan with the sets of functions of the trace
--                    environment, Single has NicMmioSpan, NicEthSpan and NicMsixSpan, OneEvent GenericSingleSpan, and
--                    NetDevice NetDeviceSpan, with what NetworkEvent keeps of the events of the network; each of the
--                    other modules has the states that one of them can be in, as a data type indexed by the span. Feed offers a span any sequence of events, null
--                    pointers among them.
--   EventFilter      include/events/event-filter.h: the filters of events, as handlers of a pipeline.
--   Events           include/events/events.h, source/events/events.cc, include/events/printer.h: the events of hosts
--                    and NICs with all their fields, what Display writes of them, with the base that the stream is
--                    left in, and Equal. Parse is EventStreamParser (include/parser/eventStreamParser.h,
--                    source/parser/event-stream.cpp), which reads such lines back; it stands on the methods of
--                    LineHandler. A name is the list of its bytes.
--   Tracer           include/analytics/tracer.h, with Trace (include/analytics/trace.h) and TraceContext
--                    (include/analytics/traceContext.h). The store has the spans, the contexts and the traces, as lists
--                    of the objects in the order in which they are made; a pointer is a position in it, and a pointer
--                    that dangles or a failed throw_if_empty or assert is a result of its own. The exporter is the
--                    log of the spans that it got. Calls has the methods as calls of any spanner, one at a time,
--                    since all of them take the mutex of the tracer.
--   Spanner          include/analytics/spanner.h, source/analytics/spanner.cpp. A coroutine of a spanner is a program: what
--                    it does until its next co_await, and how it goes on with the answer; Runs has its runs beside
--                    others that use the same tracer, with any answers of its channels. Nic is NicSpanner
--                    (source/analytics/nicSpanner.cc), Host is HostSpanner (source/analytics/hostSpanner.cc), for any
--                    sets of functions that the trace environment has, and Network is NetworkSpanner
--                    (source/analytics/networkSpanner.cpp) with the maps of include/analytics/helper.h; System is any
--                    number of them that share one tracer and act in any order. The objects are those of Tracer; what only one
--                    class of spans has is kept by the spanner, beside its pointer to the span.
--
-- Bounds and fuel. Sizes, addresses and time stamps are native numbers; sums that wrap are taken modulo 2 ^ 64
-- (add_size, key, cur_length). The channels that count without a bound have a theorem for histories too short
-- to wrap. The fuel of extract_loop is the number of bytes left, and Text shows that it is
-- enough; print 64 writes any number below 2 ^ 64. MarkSpanAsDone calls itself for the spans that wait, and its
-- fuel, `enough`, is one call for each span that waits and one more; Ends and Wait show that this is enough.
-- The fuel of till_loop is the number of bytes left as well, since every round goes over one of them (TillFirst).
-- FinishPendingSpan of a HostSpanner goes on as long as its channel has contexts that arrived before the system
-- call; the fuel of copy_for_contexts bounds their number, and what is shown of it holds for any fuel, so that
-- every run up to any point is covered. Pipelines need none: a measure of their state falls with every step.
--
-- Not modelled: logging (include/util/log.h), the export to OpenTelemetry (include/exporter) and FinishExport of
-- the tracer, which waits for it, the command line and the YAML configuration (trace.cc, include/config), the
-- threads and the executors themselves, which belong to the system or to other projects; RunPipelines, which
-- runs independent pipelines; ReaderBuffer (include/reader/cReader.h), which reads blocks of a file and cuts
-- them into lines; Display, Equal and the parsing of the events of the network, with the ethernet header; the
-- parsers of gem5, NicBM and NS3 (source/parser), and the rest of the trace environment
-- (source/env/traceEnvironment.cc).
pub mod Base
pub mod Channel
pub mod Pipeline
pub mod Chars
pub mod LineHandler
pub mod StringInternalizer
pub mod SymsFilter
pub mod Span
pub mod EventFilter
pub mod Tracer
pub mod Events
pub mod Spanner
