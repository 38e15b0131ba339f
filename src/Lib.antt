-- ===== src/Lib.antt =====
-- fluxplane-system: capability boundaries (files, processes, network, environment) and their
-- implementations, modelled as pure functions on explicit states.
--
-- The program. system.go and process.go declare the contracts: a file system, a process manager, an
-- environment, a clock. memsystem implements the file system in memory, hostsystem on the host, and
-- mountfs on top of any other file system, of which it exposes some roots by name. Beside them stand
-- helpers that callers use with any implementation: process_capture.go collects the output of a
-- process, env_helpers.go reads env files, fs_helpers.go reads, walks and globs any file system,
-- httptransport retries requests and systemkit sends them with limits.
--
-- What models what.
--   Prelude, with Prelude/Tests and Prelude/Lists: shared names, Boolean tests, lists.
--   GoText, GoPath, GoMap, Integers: the parts of Go's strings, path, maps and signed integers that
--     the source uses. A string is the list of its code points, a map an association list whose
--     order stands for the order of a range loop.
--   System: system.go. The interface FileSystem is a record of operations over a state; an operation
--     that changes the state gives its result and the new state; a context is its error, if done.
--   MemSystem: memsystem/filesystem.go. Nodes has the state (the map of nodes and the clock) with
--     clean, prefixes, ensureParents and tick (put_node); Changes the methods WriteFile,
--     WriteTempFile, MkdirAll, Remove and Rename; Reads the others. The mutex is held for the whole
--     of each method, so a method is one step.
--   MountFs: mountfs/mountfs.go. Roots has New and the names, Resolve the two methods resolve and
--     Resolve, Virtual the virtual root, Methods the interface over the base's state.
--   ProcessTypes: the types of process.go. ProcessCapture: process_capture.go, less the waiting.
--   HostProcess: hostsystem/process.go. The manager's tables are a record; register is start after
--     its checks, signal, detach, close_input and exit are the methods and the goroutine wait,
--     broadcast is the non-blocking send to each subscription. HostProcess/Steps has the runs,
--     HostProcess/Control the checks of start, Ensure and the control of groups. HostEnv:
--     hostsystem/env.go.
--   EnvHelpers: env_helpers.go, with EnvHelpers/Resolve for the patterns of files.
--   PathPattern: internal/pathpattern. FsHelpers: fs_helpers.go, with fs.WalkDir of the standard
--     library in FsHelpers/WalkDir, and the functions Walk and Glob in the modules of these names.
--   HostNetwork: hostsystem/network.go. SystemHttp: systemkit/http.go, with its round
--     tripper in SystemHttp/RoundTrip.
--   HostFiles: host_paths.go; HostFiles/Methods is hostsystem/filesystem.go, HostFiles/Scratch
--     host_file_ops.go, over a record of the operating system's calls.
--   Capabilities: the other interfaces, of network.go, process.go and system.go. SystemBuilder:
--     systemkit/builder.go and facade.go, whose calls are a data type.
--   HttpRetry: the retrying half of httptransport/http_client.go.
--   The modules Examples apply the theorems to concrete inputs.
--
-- Bounds and fuel. WriteTempFile tries at most 1000000 names, as the source does, and reports that
-- they are used up. Numbers in names are printed with fuel 20, enough below 10 ^ 20. The retry loop
-- recurses on the attempts that are left. A walk has fuel for two levels more than its depth. The
-- searches of parents in HostFiles and HostFiles/Ancestor take their fuel, one more than the number
-- of parents that they may look at, as an argument. Everything else is structural recursion.
--
-- What is a parameter. Letters and digits beyond ASCII (the record Unicode); the host's stat, links,
-- globs and relative paths (EnvHelpers/Resolve.Host); number and date parsing and the floating point
-- backoff (HttpRetry.Library); what the network does in each attempt (HttpRetry.Trial); the errors
-- of system calls and the exit codes of processes (arguments of the steps of HostProcess); the calls of
-- the operating system on files (HostFiles.Os); name resolution and the parsing of addresses
-- (HostNetwork.Net); the HTTP client (SystemHttp.Library); path.Match (PathPattern.ElementMatch);
-- what Info of an entry answers, and what a failing ReadDir returns beside its error
-- (FsHelpers/Walk.EntryAnswers); the order in which Ensure visits the table of processes.
--
-- What is not modelled. hostinfo and the platform's signals, which are system calls; the
-- decompressing transport; the getters of systemkit's facade; the clock and environment of
-- memsystem; the interfaces of paths.go. The steps of HostProcess are atomic: the sections of wait
-- under different locks are one step, and Restart, Run and the monitor are left out. Of an error
-- only its kind is kept, not its text.
pub mod Prelude
pub mod GoText
pub mod GoPath
pub mod GoMap
pub mod Integers
pub mod System
pub mod MemSystem
pub mod MountFs
pub mod ProcessTypes
pub mod ProcessCapture
pub mod HostNetwork
pub mod SystemHttp
pub mod HostFiles
pub mod Capabilities
pub mod SystemBuilder
pub mod HostEnv
pub mod HttpRetry
pub mod EnvHelpers
pub mod HostProcess
pub mod PathPattern
pub mod Examples
pub mod FsHelpers
