-- ===== src/Lib.antt =====
-- A model of the core of vocoderd, an agent daemon built from pure state machines.
--
-- The daemon (rust/crates/vocoderd) is composed of machines: a machine takes one input at a time
-- and answers with outputs, and a router (rust/crates/vocoder-cordis) carries outputs to other
-- machines and to the driver, which alone touches the outside. The agent's conversation is a log
-- of rows: the turn/step machine appends rows to it, the inbox keeps pending input as splices in
-- it, and the session crate (rust/crates/vocoder-session) stores it as numbered generations that
-- migration steps lift from one version to the next. A tool call passes a gate, which may put a
-- question to the approval machine, and a fence around the directories it may write in. Namespace
-- machines answer the calls of clients, whose arguments are checked first: teams with a board of
-- tasks, goals, the commands that use them, settings, workspaces.
--
-- Which file models which part:
--   Base, Base/*       tests, lists, words, decimals and maps that the parts share
--   Json               the serde_json values that the code reads and builds
--   AgentLoop          machines/agent_loop.rs: the turn/step machine, one function per method
--   AgentLoop/Drafts   its rows, outcomes and reasons
--   AgentLoop/Trace    sequences of calls and the rows they append
--   AgentLoop/Shape    the grammar of a log's turn and step rows
--   AgentLoop/Endings  how turns end
--   AgentLoop/Resume   AgentLoop::resume_from and the round trip through the log
--   Inbox, Inbox/*     machines/agent_inbox.rs: the fold over splices and the operations
--   Generation         vocoder-session/src/lib.rs: names and listing of generations
--   Generation/Migration, Generation/Compose   compose and its migration steps
--   Approval           machines/approval.rs: the approval machine and check_audit
--   Rpc, Rpc/*         rpc.rs of vocoderd: deep_merge, and setting and unsetting paths of a section
--   Teams, Teams/*     machines/agent_teams.rs: the task board; Teams/Cycle is its find_cycle
--   Settings, Settings/*   machines/settings.rs: sections, revisions, redaction; uses Rpc
--   AssistantStream, AssistantStream/*
--                      machines/assistant_stream.rs: frames and their compact form
--   Goals, Goals/Steps machines/goals.rs: the goal of each agent, and the event of its changes
--   Commands, Commands/*   machines/commands.rs: command lines, and /goal on the goals namespace
--   Validate, Validate/*   validate.rs of vocoderd: the arguments of a call and its schemas
--   Workspace, Workspace/* machines/workspace.rs: the registry of workspaces and its calls
--   Uploads, Uploads/Names machines/file_uploads.rs: the name of an uploaded file
--   Mux, Mux/Silence   rust/crates/vocoder-typert/src: the streams of a socket, the namespace table
--   Sandbox, Sandbox/* machines/sandbox.rs: the modes, the ladder and the fence of the file tools
--   Tool, Tool/*       machines/tool.rs: the gate, and the read, write and edit tools
--   FsCache, FsCache/* machines/readcache.rs: the read-through cache of files
--   Router             vocoder-cordis/src/lib.rs: Router::handle
--   Router/Messages, Router/Effects            its inputs, outputs and effects
--   */Examples         concrete runs, one for each result
-- (machines/ stands for rust/crates/vocoderd/src/machines/.)
--
-- A method on `&mut self` is a function that returns the new state with its result. Numbers are
-- natural numbers; a u64 counter wraps at 2 ^ 64 where the source adds to it, an i64 read from a
-- row keeps its sign, and u32 versions are bounded where they are parsed. A byte string is the
-- list of its bytes, a BTreeMap an association list in the order of its keys, a BTreeSet an
-- increasing list or, in FsCache, a map to the unit type.
--
-- Bounds and fuel: the router's queue is drained with 1024 deliveries as fuel, which is the
-- source's own cap. Chains run on the call stack in the source; the model gives the depth to which
-- they may nest, and `none` when it is used up. More depth never changes an answer, and one level
-- is enough for machines that start no chain in the turn of a chain. The loop of `compose` has the
-- distance to the target as fuel, the walk of find_cycle one level more than the board has tasks,
-- the compaction of a live answer one round for each chunk, the check against a schema one for
-- each level that it enters, and a decimal numeral of n has at most n + 1 digits.
--
-- Parameters: the write of the workspace registry, the table of descriptors, the temporary
-- directory of the host, the machines mounted in a router (a type of states and a function that
-- answers an input), serde_json's parser, printer and codecs, the migration steps, which are trait
-- objects in the source, and the ids and times that the source draws from the clock.
--
-- Not modelled: the driver with its sockets, processes and files, the codec of generation files,
-- the model providers, the scans of FsCache over session generations, and the namespace machines
-- that have no file here. The text of the errors that only reach a person is left out.
mod Base
pub mod Json
pub mod FsCache
pub mod Approval
pub mod Teams
pub mod Rpc
pub mod Sandbox
pub mod Tool
pub mod Validate
pub mod Settings
pub mod Mux
pub mod Uploads
pub mod Workspace
pub mod Goals
pub mod Commands
pub mod AssistantStream
pub mod AgentLoop
pub mod Inbox
pub mod Generation
pub mod Router
