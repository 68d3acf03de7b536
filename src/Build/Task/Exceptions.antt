-- ===== src/Build/Task/Exceptions.antt =====
-- Taskmaster.py: the exception that a task records, and the class `AlwaysTask`.
use cross_chain.Prelude.{Bool, true, Option, none, some}
use cross_chain.Build.Node.{Heap}
use cross_chain.Build.Executor.{Exception, Outcome, returned, raised}
use cross_chain.Build.Task.{Task}

unfoldable pub exc_info : Task → Option Exception
exc_info task = task.exception

unfoldable pub exc_clear : Task → Task
exc_clear task = record task { exception = none }

-- The exception that is given, or else the one being handled.
abbrev pub given_or_current : Option Exception → Exception → Exception
given_or_current (some e) current = e
given_or_current none current = current

unfoldable pub exception_set : Option Exception → Exception → Task → Task
exception_set given current task = record task { exception = some (given_or_current given current) }

-- The attribute `exception_raise`, which is one of two methods: `_no_exception_to_raise` and
-- `_exception_raise`.
unfoldable pub exception_raise : Task → Outcome (Unit {0})
unfolding exc_info
exception_raise task = elim (exc_info task) [ none ↦ returned tt | some e ↦ raised e ]

-- `AlwaysTask.needs_execute`
unfoldable pub always_needs_execute : Heap → Task → Bool
always_needs_execute h task = true
