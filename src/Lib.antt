-- ===== src/Lib.antt =====
-- A verification library of the Memory Overcommitment Manager and of its performance-fairness
-- policy: the memory of a host is balanced between its guests by policies that read what monitors
-- collect.
--
-- The program. A `Monitor` (mom/Monitor.py) asks its collectors for statistics and keeps a history
-- of them; `interrogate` makes an `Entity` (mom/Entity.py) of it, a snapshot for the policies. A
-- policy is either a text in a Lisp-like language, stored and compiled by `Policy`
-- (mom/Policy/Policy.py) and run by `Evaluator` (mom/Policy/Parser.py), or a fixed one: `RPPolicy`,
-- `GradientPolicy`, `WFMPolicy` or `FUPolicy` (mom/Policy, the files of these names). All leave
-- controls in the entities, such as `balloon_target`, which the controllers send to the hypervisor.
--
-- The files. Common: dictionaries in the order of insertion, sorting, texts. Language: the
-- evaluator; Scopes is `VariableStack`, Dispatch is `_dispatch`, Handlers are the methods `c_...`,
-- Eval is `eval` with `default`, Balance, Enough and Scopes/Laws hold proofs. Policy: the store,
-- with proofs in Rollback. Number: the arithmetic that the memory policies take from Python.
-- RpPolicy: Fitting and VmInfo are the classes of these names, Allocate the methods of `RPPolicy`
-- that move memory, Evaluate one round, the modules below them proofs. GradientPolicy, WfmPolicy
-- and FuPolicy: the other fixed policies, in the same parts. Entity and Monitor: the classes of
-- these names, with proofs in Monitor/Priority, Monitor/Collect and Monitor/Variables;
-- Monitor/Threads is the loop of the threads of monitors as a step relation. GuestMonitor and
-- GuestManager: mom/GuestMonitor.py and mom/GuestManager.py, the monitors of the guests and the
-- dictionary of those that run, with proofs in Tracking and Rounds. PolicyEngine:
-- mom/PolicyEngine.py, with proofs in Calls, and in Targets with `RPPolicy` and a controller.
-- Controllers and Collectors: the files of mom/Controllers, and those of mom/Collectors that keep a
-- state, with proofs in Settled and Counters; AgentClient: the connection to the agent of a guest,
-- in mom/Collectors/QemuGuestAgentClient.py. Hypervisor: the cache and the queries of the vdsm
-- interface, Vdsm the classes that call vdsm, with proofs in Outage, and Libvirt the interface to
-- libvirt, with proofs in Opened and Told. Optional: mom/optional.py. A module Tests holds runs and
-- theorems at concrete inputs.
--
-- The modelling. Objects are records, dictionaries association lists, and sets lists; Python
-- exceptions are values. A method that a semaphore guards is one step. The evaluator can run for
-- ever, since a policy may define functions that call themselves; so `eval` takes fuel, one unit
-- for each nested call of `eval`, and is none where it runs out. No number of units is enough for
-- every policy; Language/Enough bounds the fuel of code that defines no function by the depth of
-- its lists. What Python itself provides, its values with their operations and its numbers, is a
-- parameter: the records `Python` and `Number`, with `IsOrdered`, `IsExact` and `IsRing` for the
-- laws of numbers that a theorem needs. So are the regression of scikit-learn, the files of the
-- system, what the hypervisor answers, and `get_code`, the compiler over the vendored spark.py,
-- what a socket does in each call, the reports of vdsm, and the calls of libvirt, the record
-- `Libvirt`. The loop that synchronizes with a guest agent takes fuel too, one unit for each
-- response.
--
-- Not modelled: time, files, the log and the plots, the other hypervisor interfaces, the network
-- daemons of guests, the start of the daemon, the earlier versions of the policies, spark.py.
pub mod Common
pub mod Language
pub mod Policy
pub mod Number
pub mod Entity
pub mod Monitor
pub mod RpPolicy
pub mod GuestMonitor
pub mod GuestManager
pub mod PolicyEngine
pub mod Controllers
pub mod Collectors
pub mod Optional
pub mod GradientPolicy
pub mod WfmPolicy
pub mod FuPolicy
pub mod Hypervisor
pub mod AgentClient
