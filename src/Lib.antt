-- ===== src/Lib.antt =====
-- codex-guard, the agent of agent/codex-guard: it watches the Codex session logs of one machine,
-- signs what it reports, and delivers it to a server that may be away. This library models its Go
-- code (agent/codex-guard).
--
-- Parts and files:
-- - Store: how every part keeps a value in a file (internal/atomicfile, and the same steps in
--   queue.go, config.go, integrity.go and otel.go). A `Slot` is the file and its temporary
--   neighbour; an `Io` has the system's answer to each call, with the points where the process may
--   die. Store/Crash has what such a save comes to.
-- - Queue: internal/queue/queue.go, the durable queue of events. Queue/Laws has its methods,
--   Queue/History their runs against an abstract list, Queue/Blocked their runs over a file that is no
--   queue, Queue/Retention the int64 of the retention.
-- - Config: internal/config, the configuration with Defaults, Load and Save and the secrets of both
--   kinds of platform. Config/Defaults, Config/Storage, Config/RoundTrip, Config/Secrets and
--   Config/Identity are about it.
-- - Protocol: internal/protocol/protocol.go, canonical JSON and the signed envelope;
--   Protocol/Canonical is about the order of keys, Protocol/Message about the text that is signed.
-- - Integrity: internal/agent/integrity.go. Integrity/Discover has discoverLogs and hashPrefix,
--   Integrity/Scan the two loops of ScanIntegrity, Integrity/Snapshot the payload, the hash chain and
--   the state file; Integrity/Verdicts, Alarms, Deletions, Records and Chain are about them.
-- - Home: internal/agent/codexhome.go, the choice of the Codex home, with the candidates of
--   the platform in Home/Candidates; Home/Valid and Home/Choice are about it.
-- - Client: internal/agent/client.go, enqueue, Flush and reEnrollIfCurrent over the configuration
--   and the queue, and Enroll in Client/Enroll. Client/Flush is about delivery; Client/Sequences,
--   Saves, Enqueue, Numbers, Restart, ReEnroll and Lifetime are about the sequence numbers,
--   Client/Delivery about a server that accepts the events.
-- - Otel: internal/agent/otel.go, the collector. Otel has the decoding of a record, Otel/Ingest the
--   file and ingestOTLP, Otel/Request the guards of the handler; Otel/Told, Totals and Repeats are
--   about what a request adds, once and when it is sent again, and Otel/Privacy about the attributes
--   that count.
-- - Quota: internal/agent/quota.go, with quotaFiles in Quota/Files; Quota/Order, Newest, Windows and
--   Quota/Lines are about the snapshot that it returns.
-- - Telemetry: internal/agent/detect.go, the lines that ConfigureTelemetry keeps and writes, with
--   Telemetry/Headers and Tables about them; Telemetry/Status has its files and TelemetryStatus, and
--   Telemetry/Backup is about what it leaves when it fails.
-- - Posture, Usage: internal/agent/posture*.go and CollectUsage of usage.go.
-- - Agent: the reports of client.go, usage.go, otel.go and integrity.go, which are composed of the
--   parts above; Agent/Inputs has their state and what they meet, Agent/Payloads their JSON,
--   Agent/Loop Cycle and Run of run.go. Agent/Survival and Running are about what they leave
--   whatever they meet, Agent/Delivery about a server that answers.
-- - Commands: cmd/codex-guard/main.go, and Watchdog of internal/agent/service_*.go; Commands/Beside is
--   about a command that runs beside the agent.
-- - Base: lists, results, integers, texts and sorting that the parts share. Examples: the theorems at
--   concrete inputs.
--
-- A Go method that changes an object is a function from the object to its result and the object
-- afterwards; `(value, error)` is a `Result`, with the death of the process as one error. A method
-- that holds a mutex from end to end is one step. Numbers of Go are integers with their wrap-around
-- where it can be reached: the retention's int64, the uint64 of a sequence number and of the tokens.
-- The loop of Flush runs on fuel, one round each; one round more than there are queued events is
-- enough, and a report gives it that many. The digits of a number run on fuel above the number.
--
-- Parameters: SHA-256, Ed25519, base64, the data protection service of Windows with the laws that a
-- machine opens what it sealed, the decimal text of a float64 and its conversion to uint64 from 2^53
-- on, what json.Unmarshal leaves behind an error, fmt's %v, strconv.IsPrint, the parsers
-- of TOML and of a log line's JSON, the file system's answers and those of package filepath, the
-- programs that the agent runs, the clock and the time zones, random identifiers, and the replies of
-- the server. A re-enrollment takes what ConfigureTelemetry returned as an input.
--
-- Left out: the JSON text of the files (a file is absent, empty, not JSON, or the JSON of a value),
-- the HTTP client and the server's listener, the Windows service, the parsing of flags and the
-- printing, and the server, which is in other languages. They are input and output, or calls of
-- parts that are here. The requests of the collector arrive in other goroutines and wait for the
-- lock of the totals; they are steps of their own beside the reports.
pub mod Base
pub mod Store
pub mod Queue
pub mod Config
pub mod Protocol
pub mod Integrity
pub mod Client
pub mod Home
pub mod Otel
pub mod Quota
pub mod Telemetry
pub mod Posture
pub mod Usage
pub mod Agent
pub mod Commands
pub mod Examples
