-- ===== src/Lib.antt =====
-- Verification of generalcompute2api, a gateway that serves an OpenAI-style API from a pool of
-- upstream accounts.
--
-- The program's parts that are modelled here, and their files:
--   Prelude      shared names: tests on numbers, lists, Go strings as lists of bytes (Text), Go maps
--                with string keys as association lists (Maps), integers (Int), searches in strings
--                (Strings), calls that return, panic or run out of fuel (Runs).
--   Config       internal/config: account identifiers, mobile numbers, the limits of the pool.
--   Pool         internal/account: the pool of accounts that requests take leases from. The file holds
--                the state, leases and waiters; Pool/Changes its limits, its reset and the accounts that
--                come and go; Pool/Lookup the account catalogue and the queue's order. Pool/Counts,
--                Acquire, Release, Named, Ledger, Waiters, Calls, Sync and Waiting prove.
--   Auth         internal/auth: how a request gets an account from the pool, changes it and gives it back.
--                The file holds the first account of a request, Changes the next ones; Cooldown is the
--                accounts set aside for a while; Leases, Switch, Turns and Discards prove.
--   Pow          pow: the proof of work for the upstream service. Keccak and Hash are the digest,
--                Decimal and Solve the search; Absorb and Search prove.
--   Util         internal/util/text.go: cutting texts, and the parts of unicode/utf8 in use. Lower is
--                strings.ToLower over unicode.ToLower.
--   Fence        internal/toolstream/tool_sieve_state.go: the Markdown fences of a streamed text; Chunks,
--                Stack and Blocks prove.
--   Markup       internal/toolcall/toolcalls_scan.go and the parts of toolcalls_parse_markup.go that it uses:
--                the tags of tool calls. Names are the tags' names, Ignored CDATA sections and comments,
--                Scan a tag at a position, Find the searches; Bounds, Skips, TagEnds, Found, Matched
--                and Panics prove.
--   ToolNames    internal/toolcall/tool_name_alias.go: the names of tools upstream; Canonical is the name of a call
--                among the tools that are offered; RoundTrip and Offered prove.
--   Sieve        internal/toolstream: the sieve that takes tool calls out of a streamed text. The file holds
--                its state and the interface of the detector, Process ProcessChunk and Flush over a
--                detector. Fences, Bare, Xml and Detect are the detector of the program, which uses Markup,
--                Fence and ToolNames. Kept, Settled and Flushed prove for any lawful detector;
--                Cuts, Searches, Trims, Captures, Consumed, Sanitized and Lawful that the program's is one.
--   Sse          internal/sse: the lines of a stream. Dedupe proves for dedupe.go. Json are decoded values,
--                Tags the tags around thoughts, Chunk the kinds of parts, Choices the chunks of the OpenAI
--                API, Parse ParseSSEChunkForContentDetailed and Filter hasContentFilterStatus; Lines is
--                line.go and content_filter_leak.go, Citations citation_links.go, Collect CollectStream of
--                consumer.go, and Pump, with its Steps, stream.go. Kinds, Pieces, Parts, Hidden, Filtered,
--                Lifted and Read prove for a line, Silent for CollectStream, Indexed, Cited, Held,
--                Mentioned, Settled and Linked for the links, over Mentions, what the lines cite;
--                Pump.Marks, Flushes, Kept, Stopped and Handed, and Pumped, for the pump.
--   Accumulator  internal/httpapi/openai/shared/stream_accumulator.go: the texts of a stream so far, fed with
--                the lines of Sse; Deltas and Lines prove.
--   Stream       internal/stream/engine.go: the loop that passes the lines to a handler under a ticker and a
--                context; Trace and Timeouts prove.
--   Turn         internal/assistantturn/turn.go and internal/httpapi/openai/shared/assistant_toolcalls.go: what
--                the assistant said once a completion is over. Finish is how the turn ends and whether it is
--                tried again, Markers internal/httpapi/openai/shared/citation_links.go, the links in place of
--                citation markers, and Attempt the turn of a stream (internal/completionruntime/nonstream.go).
--                Unlinked, Outcomes and Attempt prove.
--   Responses    internal/httpapi/openai/responses/response_store.go: finished responses, kept for a while.
--   DevCapture   internal/devcapture/store.go: the last exchanges with the upstream service.
--   ChatHistory  internal/chathistory/store.go: the conversations, in memory and in files. Index is
--                rebuildIndexLocked, Disk saveLocked, Calls the methods; Keys, Pending, Saved, Files and
--                Mirror prove that the files follow, Methods, Deletions and Runs for each method and any
--                calls of them, Order, Listing and Rebuilt what the index shows.
--
-- How the model corresponds to the code. A method of a mutable object is a function from the state to
-- the new state and its result; its name is the Go name in snake case. The state is what the method
-- sees under its lock, so concurrent callers are any sequence of such calls. A Go string is the list of
-- its bytes. A Go int that cannot be negative is a natural number; arithmetic that the program cannot
-- bring near 2 ^ 63 is not wrapped. 64-bit words of the hash are numbers below 2 ^ 64 and wrap. A
-- channel is a number that is handed out once, and closing it puts it on a list. Logging is left out.
-- The state of a context, the clock and the environment are arguments.
--
-- Loops. Loops over a list are structural. The sponge takes the length of its input for fuel, of which each
-- round uses up a block, and the digits of a nonce take the 20 bytes of the program's buffer, which hold
-- every 64-bit number. The search recurs on the number of nonces left. A run of the stream's loop is over
-- the rounds that it is given. A request's loops over accounts take the answers of the pool and of the
-- upstream service as a list, a turn at a time, and no account is tried in two turns.
--
-- A loop of the scanner or the sieve that jumps takes for fuel one more than the length of the text, or
-- of both texts where it follows the lower case text too; the loop of ProcessChunk takes twice the length
-- of the text that it holds and two more, since each round shortens that text or begins a capture.
--
-- Panics. In the scanner and the sieve a slice out of range ends the call with a panic, which is a value
-- of Run. Ends X P says of a call that its value has the property P, that it panics only if X, and that it
-- does not run out of fuel.
--
-- Parameters. unicode.ToLower on runes, strings.ToUpper, strings.ToLower and strings.EqualFold stand for
-- Go's tables of characters. json.Unmarshal is an argument, as are the numbers and texts that Go makes of a
-- decoded value, and the paths that a chunk is skipped at, since a file may replace them. The
-- parser of a complete block of calls is an argument of the sieve.
--
-- The pump of a stream. Its events are the lines that are read, the ends of the waiting time and the
-- cancelling of the context, in the order in which it takes them, and for each send to come it is given
-- whether the send goes through.
--
-- The file system. A save of the chat history stops at its first operation that fails, so the number of
-- operations that succeed stands for the file system.
--
-- Not modelled: the HTTP handlers and rendering, the database, the loading of an existing chat history,
-- JSON and network clients; the parser of a block of tool calls, and prompts.
pub mod Prelude
pub mod Config
pub mod Util
pub mod Pool
pub mod Pow
pub mod Stream
pub mod Sse
pub mod Responses
pub mod DevCapture
pub mod ChatHistory
pub mod Accumulator
pub mod Auth
pub mod Fence
pub mod Markup
pub mod Sieve
pub mod ToolNames
pub mod Turn
