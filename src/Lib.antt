-- ===== src/Lib.antt =====
-- The Matrix-Discord voice bridge: one Go process, which runs a sidecar process per Discord bot, joins
-- LiveKit rooms on the Matrix side, and carries sound between Discord voice channels and Matrix calls.
--
-- Parts and files:
-- - Base: shared names, Boolean tests, lists over the native numbers, equality as an interface, Go maps
--   as association lists, Go strings as lists of bytes.
-- - Ipc (pkg/ipc/protocol.go): Frame has ReadMessage (read_message) over the bytes of a stream and
--   WriteMessage (write_message) over a connection that takes some number of bytes; RoundTrip, Inverse
--   and Stream are about the two together.
-- - Payload (HandleMessage and pushMatrixUsers of pkg/bridge/manager.go, sidecar/index.mjs): the parsers
--   of VOICE_STATE, CHANNEL_LIST and USER_INFO and the writer of MATRIX_USERS, with their other ends in
--   the sidecar. A slice expression out of range is a panic, `none`.
-- - Bridge (pkg/bridge/manager.go): State has the records; Slots, Start (startBridge), Stop
--   (stopBridgeForChannel, HandleSlotDeath, RemoveBot, Close), Call (OnMatrixCallMember and its timer,
--   pushMatrixUsers), Messages (HandleMessage, onVoiceState, ensureMatrixRoom) and Admin (Stats,
--   ListRooms, ListSlots, ManualJoin, ManualLeave, AddBot) have the operations, each a function from a
--   Manager to a Manager with the calls it makes outside as a list of effects. Machine puts them
--   together, one step a call. Invariant, Keeps, Frame, Grow, Ready, Steps and Runs are about the
--   assignment of channels to slots; Pool, Refinement and PoolRuns are about the slots as a pool, whose
--   moves Pool lists; Death and DeadForever about dead slots; Cycle about one start and stop; Moves,
--   Joins, Debounce and Shared about tracked users. Start has startBridge as its two sections under the
--   lock, claim and publish: InFlight has them as separate steps with other calls between, Bystander,
--   Undisturbed, Orderly and Exclusion are about those interleavings, Unclaimed about dead slots in
--   them, Race about the stop of a channel whose start is in flight, Window about a join inside the
--   timer's callback, and Closing about Close.
--   Discover has the rooms of earlier runs (RebuildDB, DiscoverExistingRooms, and the bridge event of
--   ensureMatrixRoom), Digits, Scanned and Rediscover are about it; Spaces (discoverGuildSpace,
--   discoverCategorySpaces, addToGuildSpace) puts new rooms into spaces, and its Finding and Placement
--   are about that. Api is the manager with its database as the ManagerAPI of pkg/types, and Commanded is about
--   calls and messages to the bot in any order.
-- - Livekit (pkg/livekit): SoftLimit (softLimit), Subscriber, Modes, Tracks, Held and Inputs (the tracks
--   of Subscriber, their modes and mixer inputs), Participants, Flights, Attempts and Rooms (ensureParticipant
--   and the calls beside it as a step relation), Output (opusOutput.WriteSample) with Rounds and Frames
--   about it, Downmix (the two channels of trackLoop made one).
-- - Matrix (pkg/matrix/signalling.go): Signaller has memberships, retries, ghost names and profiles;
--   Presence is about them, and about ghosts as the bridge manager meets them. Renewal has StartRenewal,
--   Sync the handlers and the backoff of StartSync. Words has the functions of Go's strings that
--   commands are read with, Commands (pkg/matrix/commands.go) Handle and
--   the commands over the ManagerAPI interface, and StartSync's handler of messages; Gate is about who
--   can change what, Texts has the texts of the replies and Answers is about them. Avatar has
--   NewSignaller's maps and uploadAndSetAvatar.
-- - Store (pkg/store/store.go): the tables and each method as what its statement does to them; Views and
--   Unique are about sequences of calls.
-- - Process (cmd/bridge/main.go): Boot has the log level, the seeding of bots and their slots, Reader the
--   read loop of a slot; Restart and Survival are about them. Launch has the start of the sidecars and
--   Shutdown the end of run, with what each does to sockets, processes and connections as a list of
--   acts; Waiting, Ending, Spawned and Sidecars are about them. Started is about StartSidecar and the
--   sidecar's settings, which are in Ipc/Sidecar.
-- - Config (pkg/config/config.go): Load, Validate, Tokens; Settings is about them.
-- - Examples: runs at concrete inputs.
--
-- Interaction: a sidecar's message is read by Ipc, parsed by Payload inside HandleMessage, and moves the
-- manager, whose effects name the messages for sidecars, the calls of the signaller and of LiveKit. A
-- Matrix call event reaches OnMatrixCallMember, which starts and stops bridges; a message of an admin
-- reaches the same manager through Handle. The reader of a slot turns the end of its stream into the
-- slot's death, and the database outlives the process.
--
-- Bounds: bytes, 16-bit lengths, 64-bit identifiers and int16 samples keep their widths, and uint16
-- sums wrap as in Go. The digits of a number are produced on fuel 20, which is enough for a uint64; the
-- retry loop runs over its three attempts. The read loop of a slot runs on fuel, of which one more than
-- the bytes of the stream is enough, since a round reads a header at least; the loop of WriteSample on
-- one more than its samples, since only its first round may take none. Other loops are structural
-- recursion over lists; where Go iterates over a map in some order, the order of the association list
-- stands for it. The waits at the end of run, ten seconds for the
-- readers and five for the processes, are arguments: in which order the readers end, what the manager's
-- other calls do before each, and whether the processes have ended by then.
--
-- Not modelled: sockets and deadlines (Server, and what the system makes of the acts of cmd/bridge); the
-- flags, the monitor of processes and the stats ticker of cmd/bridge, which only log; the libraries for
-- LiveKit, Opus, mixing, Matrix, YAML and SQLite, whose answers are arguments; the product with the
-- floating-point gain, an argument of the downmix; logs; the lower case of letters beyond
-- ASCII whose lower case is beyond it too, in the commands that a reply quotes; the test programs under
-- cmd.
pub mod Base
pub mod Ipc
pub mod Payload
pub mod Bridge
pub mod Livekit
pub mod Config
pub mod Matrix
pub mod Store
pub mod Process
pub mod Examples
