-- ===== src/Lib.antt =====
-- wmux: the daemon that keeps terminal sessions alive. This library models its core.
--
-- A client sends frames (internal/platform/protocol) to the daemon (internal/daemon), which owns
-- the session service (internal/session). A session is a shell under a PTY with an output buffer;
-- the daemon drains the buffers into frames for the attached clients. It scans the output for OSC
-- 133 markers, which drive a command tracker for each session (internal/cmdlifecycle), and
-- publishes what happens on an event bus (internal/platform/event).
--
-- Session.antt and its children: Ids is values.go; Buffer is backpressure.go, with its backing
-- arrays as numbers so that the recycling of slices can be stated; Batcher is batcher.go; Defs and
-- Service are entity.go and service.go, where a pointer to a managedSession is a handle into a
-- store; ReadLoop has readLoop and emulatorLoop of service.go beside the batcher and the buffer;
-- Reaper is the tick of reaper.go and of watchdog.go. Invariant, Restart, Reaper/Sweep and the
-- children of Buffer hold the proofs.
-- Lifecycle.antt is the tracker of internal/cmdlifecycle, Lifecycle/Service.antt the service around
-- it; Spec is the abstract view, Refines relates each marker to it, Runs and Sessions whole
-- histories.
-- Protocol.antt is the codec: Encode and Decode over any io.Writer and io.ReadFull, whose
-- documented behaviour is stated in Protocol/Streams.antt.
-- Events.antt is the bus: `none` is a panic of the Go runtime on a closed channel.
-- Events/Names.antt has the names of the event types and their JSON form.
-- Transport.antt is internal/transport: entities and the handshake; Transport/Registry.antt
-- registers the channels and has the other methods of the server, Transport/Heartbeat.antt the
-- manager of heartbeat.go.
-- Ancestry, Admission, Joining, Vouched and the children of Heartbeat hold the proofs.
-- Daemon/Payload.antt is the payload of data frames; Daemon/Osc.antt is osc.go and scanOSC,
-- Daemon/Da.antt is da.go and scanDA, and Daemon/Attach.antt has handleAttach, handleDetach and
-- detachClient on top of the session service. Daemon/Waiters.antt has the waiters of the daemon and
-- handleWait.
-- Daemon/Output.antt puts these together: flushSessionOutput and flushOutput take the output from
-- the buffers of the session service through the scans, the scrollback, the recordings and the
-- waiters to the streams that the transport has for the attached clients; Pipeline runs them beside
-- the batchers, whose lemmas are in Batches.
-- Daemon/Handlers.antt has the handlers that work on the session service alone.
-- Daemon/Lifespan.antt has handleCreate, the callback of OnExit, handleRecord, handleStatus and
-- publishCmdEvent.
-- Daemon/History.antt is handleHistory. Client/Stream.antt and Client/History.antt are the client's
-- side in pkg/client/stream.go and pkg/client/recording.go, with the loop of the history command of
-- cmd/wmux/main.go; Client/Connect and Client/History/Readback hold the proofs.
-- Client/Rpc.antt is sendRequest of pkg/client/client.go, Client/Requests.antt has the requests of
-- session.go, exec.go and metadata.go, and Client/Config.antt the options, with the arguments that
-- a client hands to a daemon it starts.
-- Daemon/CmdRepository.antt is cmdrepository.go. Daemon/Restart.antt is reconcile.go, and what the
-- start of the daemon restores; Settled, Updates, Rounds, Reconciled and ColdRestore hold the
-- proofs. Daemon/Environment.antt is environment.go with handleEnvForward, and
-- Daemon/Subscribe.antt handleSubscribe with its goroutine.
-- Tmux.antt is cmd/wmux-tmux/main.go.
-- Platform/Ansi.antt is the stripping of escape sequences (internal/platform/ansi/strip.go), and
-- Platform/Scrollback.antt the capped writer of internal/platform/history/writer.go,
-- Platform/Recording.antt the writer of internal/platform/recording/writer.go. Platform/Html.antt
-- is internal/platform/ansi/html.go, with the colours and SGR codes in Platform/Html/Style; Markup
-- reads the page as a browser does, and Plain compares it with strip.go.
-- Platform/SessionDirs.antt is metadata.go and dirops.go of internal/platform/history; Listing and
-- Evict hold the proofs. Platform/Size.antt is ParseSize of entity.go beside them.
-- Platform/Commands.antt is internal/platform/commands: calls of the writer and rounds of its
-- goroutine are steps on the writer and the disk. Disk, Saved and Loads hold the proofs.
-- Prelude has the helpers: Boolean tests, lists, maps and searches over the native numbers.
-- Examples runs the definitions on concrete inputs.
--
-- A method that holds its lock is one step. Times are numbers of nanoseconds, and a clock, a spawn
-- and a resize are arguments of the steps that use them. The loops that cut the output at what they
-- find have the length of the output as fuel, since each turn consumes a byte at least; the walk up
-- the process tree has the 64 steps of the source; every other loop is over a list. A byte is a
-- number; `% 256` and `% 2 ^ 32` stand where the code converts.
-- The chunks of a history have its length as fuel, for the same reason, and a read of it to the end
-- one more than that.
--
-- Not modelled: timers, the PTY, sockets, the JSON of requests, files, the emulator, the tracer,
-- and the handlers of the daemon that are not named above, the setup of the daemon in the client
-- library, and the rest of the command line.
pub mod Prelude
pub mod Session
pub mod Lifecycle
pub mod Protocol
pub mod Events
pub mod Daemon
pub mod Platform
pub mod Transport
pub mod Client
pub mod Tmux
pub mod Examples
