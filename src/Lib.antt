-- ===== src/Lib.antt =====
-- mirabilis builds and opens a container for coding sessions. Its launcher is a pipeline of steps
-- that checks what is there, makes what is missing and hands the terminal over, driven from a
-- terminal interface, with its configuration in text files.
--
-- Pipeline (internal/engine/pipeline): `Pipeline/Types` has the data of command.go. `Pipeline/Build`
-- is `New`; `Pipeline/Run` is `Run` with `failedDep`, `collectAutoBatch` and `runAutoBatch`;
-- `Pipeline/Step` is `runStep`, `check`, `runAttempts` and `sleep`; `Pipeline/Attempt` is `attempt`
-- with its `select` as one function on an input and a state, `Resume`, `setWaiting` and
-- `takeWaiting`. What a command answers is data (`Answers`): its check, and the outcome of each
-- attempt. What goroutines interleave is an argument: the order in which a batch arrives
-- (`Schedule`), and the sequence of inputs of an attempt. Each attempt has the waiting slot of the
-- pipeline to itself: the steps that run in parallel never wait. The channel of events is the list of
-- events; its capacity, what `emit` drops after a cancellation, and the log are not modelled.
--
-- Steps (internal/engine/steps): `Steps/Batch` is batch.go, `Steps/Launch` the lists `Launch`,
-- `LaunchBatched` and `Review` with the `Meta` of each step. The waves of a batch are found on fuel,
-- which is the number of its steps: each round takes at least one of them. `Steps/Forms` is the step
-- that asks for the configuration (forms.go, with `subtract`, `splitCSV`, `dotenvRead` and
-- `awaitResume` of helpers.go and `ReadPluginsDisabled` of config.go): what the wizard sends back is an argument
-- (`Answer`). `Steps/Review` is review.go with `setsEqual` of helpers.go: what git answers for each
-- directory is data (`Entry`), and a manifest is its repositories. The bodies of the other steps run
-- docker and gh and are not modelled.
--
-- Config (internal/engine/config/config.go): `Config/Env` is the `.env` file, `Config/Catalog` the
-- lists of config/, `Config/Loadout` the manifests with their packs, and `Config/Tune` the overrides
-- of a launch, with the methods of cmd/mirabilis/facade.go that read and write them. A file is a
-- text or the failure to read it, and a text is a list of code points (`Text`), with the functions
-- of the package strings that the code uses. A failing write is modelled in the facade only.
--
-- App (internal/tui/app): `App/State` is the state, the messages' data and the facade; `App/Launch`,
-- `App/Menu` and `App/Events` are the handlers, and `App/Update` is `Update`. A handler returns the
-- state and the requests it makes (commands of the toolkit, the start and the resumption of a
-- pipeline). Screens are what they are made from: what they draw, their sizes, and what they do with
-- the messages that they are sent are not modelled.
--
-- Notify (internal/engine/notify): `Notify/Queue` is queue.go and `Notify/Watcher` is watcher.go. The
-- outbox is its jobs and statuses by the name before the suffix, and what a tick meets (the answers
-- of the sends, the writes and removals that fail, the time, the end of the context) is an argument.
-- The loop of `Watch` and the recovery from a panic are not modelled.
--
-- Cmdlog (internal/tui/components/cmdlog/cmdlog.go): the ring of the command log, an array given as a
-- function on its 5000 indices, and the events of a step that fill it.
--
-- Router (internal/tui/router/router.go, and `NodeID` of internal/bus/bus.go): `Router` is the stack of
-- screens, for any type of screens that has an address and takes messages (`Screens`).
--
-- Screens (internal/tui/screens): the update gate, the restart warning and the role picker, by their
-- cursor and what a key asks for, and the quick tune (`Screens/Tune`).
--
-- Provision (internal/engine/provision): `Provision/Json` has JSON values and `mergeSettings`,
-- `Provision/Home` the files of a container with `readJSON`, `writeJSON`, `updateJSON` and `copyFile`
-- and what carry.go reads, `Provision/Settings` and `Provision/Belt` the steps that write settings and
-- small files, and `Provision/Phases` the lists of steps of `RunPhase`. What the operating system
-- answers to the writes is an argument (`Disk`). A file written with the encoding of a map reads as
-- that map. `Provision/Install` is reconcile/reconcile.go and skills/skills.go, `Provision/Plugins` is
-- plugins/plugins.go: the programs gh and claude are records of functions on a state of any type
-- (`Gh`, `Claude`), and what is assumed of them are the records `GhLaws` and `ClaudeLaws`. The other
-- steps run programs of the container and are not modelled.
--
-- Frame (internal/tui/frame/frame.go): `Frame` is the menu, the messages and the sizes of the parts;
-- `Frame/Status` is the state bar (internal/tui/components/statusbar/statusbar.go). Sizes and cursors
-- are natural numbers. Steplist (internal/tui/components/steplist/steplist.go, and the launch screen of
-- internal/tui/app/screens.go): the rows, what events do to them, the entries that are drawn, and the
-- lines that they take: how many lines a text takes at a width is `lines_at`, a parameter for the
-- library that draws. The text of a line, its styles and the moving bar are not modelled.
--
-- Observed (internal/obs/obs.go): the map of states and the channels of its watchers. A channel holds at
-- most one snapshot; whether a reader takes it between the selects of `Set` is an argument. Status
-- (internal/engine/status/status.go) and Release (internal/engine/release/release.go) set states: what
-- docker and the server answer in each round, and whether a sleep is cut short, is an argument, so the
-- loops are recursion on the rounds. The hours of `uptime` are a float64: its rounding is written out
-- on natural numbers, with fuel for the hours of any `time.Duration`. `Backoff` has the doubling delays that both are compared with.
-- Sandbox (internal/engine/sandbox/sandbox.go): the version of the container and when it is stale; it
-- reads the stacks that Steps/Forms writes.
--
-- Memory (internal/hooks/memory.go, and `ensure` of internal/engine/provision/memory.go): the files of
-- the memory, which the one writes and the other reads.
--
-- `Base` has the names and lemmas that these share, `Text` those on texts (`Text/Csv` lists of words
-- between commas, `Text/Sorting` the sorted lists). The files called Examples hold concrete runs.
-- The other hooks, the proxy, the docker client and the command line are not
-- modelled; most of them is input and output.
pub mod Backoff
pub mod Base
pub mod Text
pub mod Config
pub mod Pipeline
pub mod Steps
pub mod App
pub mod Notify
pub mod Cmdlog
pub mod Router
pub mod Screens
pub mod Provision
pub mod Frame
pub mod Steplist
pub mod Observed
pub mod Sandbox
pub mod Status
pub mod Release
pub mod Memory
