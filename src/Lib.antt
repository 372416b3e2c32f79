-- ===== src/Lib.antt =====
-- podtrace follows the processes of one Kubernetes pod: a program in the kernel writes a record
-- for each operation that it watches, the tracer reads the records, names their processes, keeps
-- those of the pod's cgroup and sends them over a channel; at the other end stand an exporter of
-- metrics and one of two modes, which collect the events and print a diagnostic report. This
-- library models the Go code of these parts. Paths below are those of the repository.
--
-- Which file models which code:
--
-- Event: internal/events/events.go, `Event`, `EventType` (Event/Kind) and both formatters
--   (Event/Message). A text is the list of its bytes, an `int32` is an integer of Prelude/Int,
--   and each unsigned number is a natural number below its width.
-- Wire: `parseEvent` of internal/ebpf/tracer.go on bytes, against a writer with the layout of
--   `struct event` of bpf/podtrace.bpf.c.
-- Cgroup: `isPIDInCgroup` and the two functions that it uses, of the same file.
-- ProcName: `getProcessNameQuick` of the same file and `getProcessName` of
--   internal/diagnose/diagnose.go, with the cache as a value that is passed on.
-- Tracer: `Start`, a function on the list of what the ring buffer gives. It uses Wire, ProcName
--   and Cgroup as the code does. Tracer/Attach: `NewTracer`, `attachProbes`, `findLibcPath` and
--   `Stop`, and `loadPodtrace` of internal/ebpf/loader.go, as a log of what is opened and
--   closed. Tracer/Memlock: the limits on memory at the beginning of `NewTracer`, as the
--   requests that are made and the warnings that are given.
-- Diagnose: the collector of internal/diagnose/diagnose.go and `filterEvents`. Diagnose/Latency:
--   the accumulators of the loops and `percentile`. Diagnose/Analyze: `analyzeDNS`,
--   `analyzeTCP`, `analyzeConnections`, `analyzeFS` and `analyzeCPU`. Diagnose/Activity:
--   `analyzeProcessActivity`. Diagnose/Window: what looks at times, `analyzeTimeline`,
--   `detectBursts`, `analyzeConnectionPattern` and `analyzeIOPattern`.
-- Diagnose/CpuUsage: `isKernelThread` and the figures of `generateCPUUsageReport`, of
--   internal/diagnose/cpu_profiling.go.
-- Diagnose/Report: `GenerateReport`, `generateApplicationTracing` and `detectIssues`, which put
--   these analyses together; a report is a record of its parts and their figures. Report/Text
--   writes it out, with `generateCPUUsageReport` and `generateCPUUsageFromProc`: a text is the
--   list of the strings that the code appends, and Text/Outline tells the headings from the
--   lines below them.
-- Kubernetes: `ResolvePod` and `findCgroupPath` of internal/kubernetes/pod.go.
--   Kubernetes/Config: `NewPodResolver` of the same file, with the places where a configuration
--   may stand.
-- Exporter: `HandleEvents` of internal/metricsexporter/promexporter.go, as the calls that it
--   makes on the metrics. Exporter/Series sorts these calls by the time series that they belong
--   to.
-- Session: `runNormalMode` and `runDiagnoseMode` of cmd/podtrace/main.go, functions on the
--   inputs of their `select`. Session/Channel: the channel that `runPodtrace` gives to the
--   exporter and to the mode, a step relation with all its interleavings; Session/Order: the
--   order of the events in it. Session/Signals: `interruptChan` and `WaitForInterrupt` of
--   internal/ebpf/tracer.go, a step relation on the goroutines that they start; the interrupt of Session is one that has reached the `select`. Session/Setup:
--   `runPodtrace`, which resolves the pod, opens the tracer, runs a mode and closes the tracer.
--   It puts Kubernetes, Tracer and the modes together; Setup/Pipeline joins them with the
--   channel.
--
-- What the code takes from elsewhere is an argument. `float64` is the record Float: the operations
-- are arbitrary, and the laws that a theorem needs are in IsOrdered (comparison, and sums of what
-- is not negative), IsExact (small whole numbers are exact) and IsRounded (rounded quotients and
-- multiples keep the order of the exact ones, with four results at literals), which IEEE 754
-- numbers obey. The order in which `range` visits a map, and what `sort.Slice` and `sort.Float64s`
-- give, are the record Runtime, of which only the documented laws are known. Float/Fixed and
-- Runtime/Insertion meet the laws with concrete functions. The functions of `strings` and `bytes`
-- that the program uses are defined in Strings, `filepath.Join` in Strings/FilePath, a counting
-- map in Counts. The files of `/proc`, the answers of the kernel and of the loader's packages,
-- `time.ParseDuration` and the writing of times are functions; the clock is read by the inputs
-- that bring its readings.
--
-- Bounds and fuel: the index of `percentile` is computed in floating point, and the latency
-- figures are stated for up to 10^10 events, for which the product with a percentage is exact.
-- The loop over windows has as fuel one more than the end of the period in nanoseconds; each
-- window is longer than that unit, so the fuel does not run out, which the theorem on it says.
-- The other loops are recursions on their lists.
--
-- Not modelled: the messages that go to the standard error output; the flags of
-- cmd/podtrace/main.go, the HTTP server and the registration of the metrics, which are calls of
-- libraries; the mutexes of the caches, since a process name is looked up by one goroutine in
-- each package; the kernel program itself.
pub mod Prelude
pub mod Strings
pub mod Float
pub mod Event
pub mod Runtime
pub mod Counts
pub mod Wire
pub mod Cgroup
pub mod ProcName
pub mod Tracer
pub mod Diagnose
pub mod Exporter
pub mod Kubernetes
pub mod Session
pub mod Tests
