-- ===== src/Lib.antt =====
-- gopoller, a network monitoring framework. A server takes checks from a queue, executes each in a
-- goroutine of its own, and puts it back. A check has a command that gives a result, an incident that
-- follows the results, and handlers that see both.
--
-- Parts, and where they are modelled:
--   check/result.go, check/incident.go, check/check.go: Check. State has ResultState and its order,
--     Types the structs with their constructors, Options the options of New, Schedule DueAt and IsDue,
--     Execute the whole of Check.Execute (run_command, prepare, run_result_handler_mutations,
--     close_execution). Incidents, Errors and History prove what an execution does, and a row of them.
--   memqueue/queue.go: MemQueue. Queue has the methods over the two maps of the struct (push is
--     Enqueue under its lock), Spec the list in order of priority that they implement, Represents the
--     relation between the two; Enqueue, Dequeue and History prove the refinement. Listing follows the
--     checks alone, at any priority, and Timing the time at which a periodic check comes back.
--   bufqueue/queue.go: BufQueue. Queue has the methods, on top of the memqueue; History and Conserved
--     follow every check through both buffers, Serve through Dequeue. System takes calls that overlap
--     apart into their accesses under a lock, and Race says what Flush can lose then.
--   server/server.go: Server. System has the options and Run, as a step relation between the states
--     of its goroutines, the channel, the limiter and the queue. Custody, Limits, Shutdown and Return
--     hold for every interleaving. Tracking has the goroutines that execute checks, with the callbacks
--     and the map of running checks; Tracked, Untracked and Callbacks are about it. Composed runs the
--     server on the memqueue.
--   snmp/snmp.go, snmp/gosnmp_getter.go: Snmp. Value has Object and ToBigInt, Counter the difference of
--     two readings, Getter and Chunks the requests of Get, which asks in chunks, Device what Get
--     returns on a device that answers them all.
--   check/command/snmp/snmp.go: Command.Snmp. Monitor has OidMonitor and its verdict on a value, Run
--     the method Run, Rated the rules of a monitor, Worst and Result what Run returns, Divides and
--     Panics where it panics, Whole Run with its Getter.
--   check/command/smtp/smtp.go, http/http.go, dns/dns.go and ping/ping.go beside it: Command.Smtp, Http,
--     Dns and Ping, from the answers of the client, the server, the resolver and the pinger on.
--     Response has the grading of a response that the first three share.
--   check/command/smtp/textproto_smtp.go: Command.Smtp.TextProto, the client of smtp in the hands of
--     many commands at once; Sharing for commands with clients of their own, Misdirect for a shared one.
--   check/command/ping/probing_pinger.go: Command.Ping.ProBing.
--   check/command/junsubpool/junsubpool.go: Command.JunSubPool. Pools has the sums over the answers,
--     Usage the results, Device both with the Getter of snmp.
--   check/command/ciscoresources/ciscoresources.go: Command.CiscoResources. Levels has the results,
--     Missing the answers that lack an object.
--   check/handler/statsd/statsd.go: Handler.Statsd, the message and the loop that writes it.
--   check/handler/dummy/dummy.go: Handler.Dummy, which does nothing.
--   check/handler/rrdcached: Handler.Rrdcached. Client has the commands, data sources and archives with
--     their texts, Update the update commands, Process the method Process against a server that answers
--     as it likes, GoRrd the adapter to go-rrd. Split and RoundTrip read texts back, Reports and Prepared
--     are about the errors and the order of the calls.
--   Common holds Go's maps (GoMap), int64 and time.Duration (Int), float64 where Enqueue goes through
--     it (Float), lists and counts (Lists, Occurrences).
--
-- How they meet: a check is a number, the reference that queue, server and handlers share. MemQueue and
-- BufQueue read and write it in a store, Check.Execute works on its struct, and the Server moves it. The
-- Server sees its queue through the interface of check.Queue, as a bag of checks; Server.Composed puts
-- the memqueue behind it.
--
-- Bounds. A time is a number of nanoseconds, an integer without a bound; a product of durations wraps
-- around at 64 bits, and the counter of the memqueue at 2 ^ 64. float64 is exact up to 2 ^ 53, and the
-- conversion back to int64 is the one of amd64 (a value out of range becomes the smallest int64). Get of
-- snmp recurses on fuel: one more than the number of identifiers is enough where the limit on
-- identifiers is above zero; the loop of statsd on one more than the bytes of the message, since every
-- write takes one at least. The order of a range over a map and the order in which goroutines deliver
-- their errors are left open.
--
-- What is outside: multierror, uuid, gosnmp, pro-bing, go-rrd, math/big, the network, the clock, the
-- commands and handlers behind their interfaces, and the backend of bufqueue are parameters or arguments,
-- or decide which step is taken. Debug logs and the texts that are printed are left out.
pub mod Common
pub mod Check
pub mod MemQueue
pub mod BufQueue
pub mod Server
pub mod Snmp
pub mod Command
pub mod Handler
