-- ===== src/Build.antt =====
-- The walk of the dependency graph by the build engine, scons-2.3.1/engine/SCons: the nodes
-- (Node/__init__.py), the executors (Executor.py), and the taskmaster and its tasks (Taskmaster.py).
pub mod Node
pub mod Executor
pub mod Taskmaster
pub mod Task
pub mod Errors
pub mod Deps
pub mod Actions
pub mod Jobs
pub mod Serial
pub mod Implicit
pub mod Walker
pub mod Changed
