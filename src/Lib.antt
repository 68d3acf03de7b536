-- ===== src/Lib.antt =====
-- Two programs of the repository. The client of atomic swaps (atomicswap) builds the contract script by
-- which two parties exchange coins of two chains, recognises it, and spends it. The build engine SCons
-- (scons-2.3.1/engine/SCons) walks the graph of dependencies: its taskmaster decides which node is built
-- next, hands out tasks, and keeps account of who waits for whom.
--
-- The parts of the client and their files. A script is the list of its bytes, a text the list of its
-- character codes; `none` is a C++ exception or a failed `assert`.
-- - Swap/Script.antt: the pushes of `CScript` and `GetOp2` (script.h) with `CBigNum` (bignum.h).
-- - Swap/Contract.antt: `AtomicSwapContract`, `ExtractAtomicSwapData` and the locktime of `Refund`
--   (atomicswap.cpp), `ISAtomicSwap` and `IsPayToScriptHash` (script.cpp). The bytes that OpenSSL's
--   `BN_bn2mpi` writes are a parameter, and `WritesMpi` its documented format for four-byte numbers.
-- - Swap/Spend.antt: the signature scripts of `Redeem` and `Refund`, and the loop of `ToString`.
-- - Swap/Hex.antt: `HexStr` (key.h) and `ParseHex` (script.cpp).
--
-- The parts of the engine and their files:
-- - Build/Node.antt: the states and the fields of Node/__init__.py. Nodes alias one another, so they
--   stand in a heap, a function from names (numbers) to records; a method that changes a node maps a
--   heap to a heap. `ref_count` is an integer, since the code may lower it below zero.
-- - Build/Executor.antt: `Executor` and `Null` of Executor.py, as far as the taskmaster asks them for
--   nodes, and `uniquer_hashables` of Util.py.
-- - Build/Taskmaster.antt: the state of `Taskmaster` (Taskmaster.py), the stack of candidates and
--   `will_not_build`; Build/Taskmaster/Visit.antt: `_find_next_ready_node`. The loop's body is `visit`,
--   cut into the scan of the children (`sort_children`) and what follows from it (`judge`).
-- - Build/Task.antt and Build/Task/Postprocess.antt: `Task` of the same file.
--   Build/Taskmaster/Cycles.antt: `find_cycle`, `cleanup` and the check of the pending children.
-- - Build/Deps.antt: the lists of dependencies of Node/__init__.py and the cached children.
-- - Build/Jobs.antt: `Parallel`, `ThreadPool` and `Worker` of Job.py as a relation on the state of the
--   main thread and the workers; what the taskmaster answers is up to each step.
-- - Build/Serial.antt: `Serial.start` of Job.py over the tasks of Build/Task.antt, and the handler that
--   stops the taskmaster at a signal.
-- - Build/Actions.antt: the actions of an executor (Executor.py) and `do_execute`.
-- - Build/Implicit.antt: `get_implicit_deps` of Node/__init__.py; Build/Walker.antt: `Walker`;
--   Build/Changed.antt: `changed` and `children_are_up_to_date`.
-- - Cpp.antt: cpp.py, the preprocessor that finds included files: Cpp/Names.antt its namespace and
--   macros, Cpp/Lines.antt its dispatch tables and their stack, Cpp/Reference.antt the structure of a
--   source. `Python` holds the functions of Python and of the file system that it calls.
-- - Util.antt: of Util.py, Util/Uniquer.antt is `uniquer` and the loops like it, Util/UniqueList.antt the
--   class `UniqueList`, and Util/Paths.antt `PrependPath` and `AppendPath`.
-- - Build/Errors.antt: `BuildError` and `convert_to_BuildError` of Errors.py.
-- - Main.antt: the tasks of Script/Main.py, which choose by the options what a failure does and set the
--   exit status of the program; Main/Clean.antt: `fs_delete`, which removes what a target left.
-- - Action.antt: the factory `Action` of Action.py, `_actionAppend` and the call of a list of actions;
--   Action/Perform.antt: the call of one action, with what it prints and its directory.
-- - Fs/Paths.antt: `FS._lookup` and `needs_normpath_check` (Node/FS.py), which entry a path names. An
--   absolute path is the stack of its names, which is also its key in the table of nodes;
--   Fs/Lookup.antt: `RootDir._lookup_abs` and `must_be_same`, the table of nodes; Fs/Relative.antt:
--   `Dir.rel_path`.
-- - Cache/Files.antt: the file system as CacheDir.py uses it; Cache/Push.antt and Cache/Retrieve.antt:
--   `CachePushFunc`, `CacheRetrieveFunc` and the class `CacheDir`. The parameter `System` says which calls
--   fail and what other processes do before each.
-- - Variables/Updating.antt: `Variables.Update` (Variables/__init__.py), where the program of a
--   configuration file and `subst` are parameters; Variables/Lists.antt: list variables
--   (Variables/ListVariable.py); Variables/Sorting.antt: the sort of Python that they use.
-- - Env/Override.antt: `OverrideEnvironment` (Environment.py); Env/Unique.antt: `PrependUnique` and
--   `AppendUnique`.
-- - The other files under Build hold lemmas and theorems, each named for its subject. Prelude holds
--   lists, tests and integers over the native numbers; the modules named Samples hold small inputs.
--
-- The parameter `World` (Build/Executor.antt) stands for the methods that subclasses of `Node` override
-- or that go to the file system: the children with their scanners, whether a node is up to date, the
-- build itself. They may return any value or raise any exception; a theorem that needs more says so
-- (`Within`: the nodes they name are nodes of the graph; `Finite`: their lists are bounded).
--
-- A Python set is a list without repetition, and iteration over it follows the list. Exceptions are
-- values (`Outcome`). The `while` loops run on fuel, and `none` says that it ran out: `will_not_build`
-- needs one unit for each node it is given and for each entry of a waiting list; the walk needs `work`
-- (Build/Taskmaster/Measure.antt), which counts the candidates, the nodes not visited yet and the
-- top-level targets; `find_cycle` needs one more than there are nodes not visited. The loop of
-- `ToString` needs one for each byte, and that of `get_implicit_deps` one more than the entries of all
-- lists of includes. The loop over the macros in `resolve_include` may run for ever; its rounds are
-- bounded by `depth`.
--
-- Left out: traces, statistics and messages, the unlinking of cached files, and
-- `release_target_info`, which drop or print what no decision reads again; node signatures; what
-- the actions do, and substitution; targets that an action takes from `$CHANGED_TARGETS`; exceptions that
-- the methods `executed`, `failed` and `postprocess` of a task raise; the regular expressions of cpp.py, and the statement that a call of a
-- macro with arguments evaluates; drives, repositories and variant
-- directories of Node/FS.py; `Append` and the like of override environments; the kinds of variables other than lists, and `Variables.Save`; of the
-- client, its JSON-RPC calls and handlers, the keys, and the serialised transactions, which go to
-- libraries and to other programs; the bundled libraries.
pub mod Prelude
pub mod Action
pub mod ActionSamples
pub mod Build
pub mod Cache
pub mod CacheSamples
pub mod Cpp
pub mod CppSamples
pub mod Env
pub mod EnvSamples
pub mod Fs
pub mod FsSamples
pub mod Main
pub mod MainSamples
pub mod MoreSamples
pub mod NodeSamples
pub mod PostSamples
pub mod Samples
pub mod SerialSamples
pub mod Swap
pub mod SwapSamples
pub mod Util
pub mod UtilSamples
pub mod VariableSamples
pub mod Variables
