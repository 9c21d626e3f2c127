-- ===== src/Lib.antt =====
-- gopls-lazy is a proxy between an editor and gopls (package goplslazy). It keeps gopls's workspace
-- down to the directories that are being edited: a scope of units becomes gopls's directoryFilters, and
-- requests that need more are held until gopls has received wider filters.
--
-- The parts, and where they are modelled:
--   Filepath      path/filepath on Unix, as far as the program uses it.
--   ModuleRoots   modroot.go: `walk` is the loop of nestedModuleRoot, `root_for` is RootFor;
--                 `ModuleRoots.Lookups` interleaves its two locks with changes of the disk.
--   Proxy         proxy.go: the fields of the proxy that the scope and the generations share.
--   Scope         scope.go, and the handlers of proxy.go and resolve.go that change the scope:
--                 `filters` (filtersLocked), `unit_for` (unitFor), `push_scope` (pushScope),
--                 `ensure_units` (ensureUnitsLocked), `handle_client_response`, `observe_open`,
--                 `evict_idle_units` and the others; `Scope.Barrier` interleaves them.
--   RevIndex      revindex.go: the reverse-import index, how files enter it, the first scan
--                 (`RevIndex.Build`), the search for importers.
--   Documents     documents.go: the overlays of the open documents and the edits of the editor.
--   Held          proxy.go: definition and prepareRename requests held until their unit is applied.
--   Modules       proxy.go: the eviction of nested modules that are not in use.
--   Symbols       symbols.go: workspace symbols, their scores and the merge of several indexes.
--   Options       main.go: the options from the environment and the command line.
--   Worker        worker.go: the handle of the isolated worker process; `Worker.Events` sequences it.
--   Workers       proxy.go: the workers of all modules, and which of them hear of a notification.
--   Resolve       resolve.go: where a rename, references or implementation request goes
--                 (`resolve_and_expand`) and what a failed worker makes of it (`serve_via_worker`).
--   Graph         graph.go: the answers to go/packages. A slot (`GraphSlot`) and its answers and builds;
--                 Graph.Builds sequences them, Graph.Disk is the cache on disk, Graph.Embed the files of
--                 go:embed, Graph.Server the slots of the modules and which of them a query is for.
--   Framing       proxy.go: `read_frame` is readFrame, `write_frame` is frameWriter.write.
--   Pending       proxy.go and worker.go: the tables of the requests that wait for a response.
--   Files         proxy.go: the file events, and the caches of roots, graphs and indexes they change.
--
-- How the model is made: a string is a list of bytes, the text of a document a list of code points, a
-- Go map an association list with distinct keys, a critical section one function on the state, a
-- goroutine or a timer a step that may fall anywhere between the others; an operation that takes its
-- lock twice is one step where this is said at its definition. os.Stat, os.ReadFile,
-- go/parser, the URI parser of net/url, Unicode's case and space, strconv, time.ParseDuration,
-- packages.Load, encoding/json, SHA-256, git, modfile and the answers of gopls are parameters. Time is a
-- number of nanoseconds that each operation is given; a timer of the graph may fire at any time after it
-- is armed. A loop over paths, frames or a work list runs on fuel, and each has a theorem that the fuel
-- given is enough: the walk up the directories has one more than the bytes of the path, the search for
-- importers two more than the number of edges, the timer the time until its deadline, the reader of
-- frames one more than the number of frames.
--
-- Not modelled: the JSON codec, logging, processes and sockets, the client of the worker but for its
-- table of requests, and the switches on the method that hand a message to its handler.
pub mod Base
pub mod Documents
pub mod Filepath
pub mod Files
pub mod Framing
pub mod Graph
pub mod Held
pub mod ModuleRoots
pub mod Modules
pub mod Options
pub mod Pending
pub mod Proxy
pub mod Resolve
pub mod RevIndex
pub mod Scope
pub mod Symbols
pub mod Worker
pub mod Workers
