-- ===== src/Lib.antt =====
-- A model of Lithops, which runs a Python function as many calls on the workers of a cloud, with
-- theorems about it. A client cuts its objects into partitions, makes a job of them, stores the job's
-- function and data, and has an invoker start the calls; workers load their data and their part of an
-- object and leave a status; a monitor turns ended workers into tokens, on which the invoker starts
-- the calls that still wait; futures and waits follow the calls to their results.
--
-- Base holds what the modules share: Boolean tests, lists and sums over the native numbers, and texts,
--   which are lists of byte codes.
-- Partition models lithops/job/partitioner.py: `split_object` is the loop of the three `_split`
--   functions, `create_partitions` the entry, `Threads` the interleavings of the thread pool, and
--   `split_object_url` is the one of lithops/utils.py. The loop's fuel is the object's size and one,
--   since a chunk has at least a byte.
-- Stream models WrappedStreamingBody and WrappedStreamingBodyPartition of lithops/utils.py and
--   `_load_object` of lithops/worker/jobrunner.py. `Rows` shows what the parts of an object give.
-- Payload models `agg_data` and `iterchunks` of lithops/utils.py, `get_function_data` of
--   lithops/worker/utils.py and the keys of lithops/storage/utils.py. What `eval` and `pickle` make of
--   the bytes is not modelled. The fuel of `chunks_of` is one more than the length of the list.
-- Future models lithops/future.py: `status` polls on fuel, which stands for how long one waits, and
--   `result` follows it. The storage answers by the number of the query.
-- Invoker models FaaSInvoker of lithops/invokers.py: `invoke_job`, `stop`, and the steps of its
--   threads; the payload of a task of `_invoke_task`, which `Delivery` follows from the creation of a
--   job to its workers; `select_runtime`; the payload and the futures of a job, with those of
--   BatchInvoker. Remote invocation and `extend_runtime` are not modelled.
-- Retries models lithops/retries.py over an `Executor`, the record of the operations that it uses of
--   lithops/executors.py. The turns of its loop are counted by fuel. What the executor's `wait` is
--   taken to do is a hypothesis: Executor and Wait, which model it, are not put in its place.
-- Job models `_create_job` and the slices of `create_reduce_job` in lithops/job/job.py. The serializer,
--   pickle and the digest are fields of `Libraries`; a function's file, code and module search, the
--   environment and the metadata are left out.
-- Monitor models `_generate_tokens` of the two monitors in lithops/monitor.py, and the marks that
--   StorageMonitor leaves on futures: running, timed out, or ready.
-- Wait models lithops/wait.py for the futures of one executor: `_check_done`, the lists of futures, the
--   rounds of `_get_executor_data` and the loop of `wait`, on fuel. The monitor's marks between two
--   rounds are a parameter.
-- Worker models `run_task` and `function_handler` of lithops/worker/handler.py, `JobRunner.run` of
--   lithops/worker/jobrunner.py and the call status of lithops/worker/status.py in the storage.
--   `PoolStep` is a step of one of the processes that share the queue of calls, also the end of one by
--   an exception. What a call of the
--   function gives is a parameter, and so is how its process stands in the end.
-- Storage models `get_job_status`, the metadata of runtimes and the deletion of cloud objects in
--   lithops/storage/storage.py, `clean_bucket` of lithops/storage/utils.py, and lithops/scripts/cleaner.py
--   without its files. The storage that is cleaned is an interface, a record of its operations.
-- Executor models FunctionExecutor of lithops/executors.py: the ids of jobs, `call_async`, `map`,
--   `map_reduce`, `wait`, `get_result` and the cleaning of jobs. What select_runtime, the creation of a
--   job and run_job give is a parameter of the calls.
-- Redis is an interface: the commands on lists that lithops uses, and what they are documented to do.
-- Multiprocessing models, over it, the semaphores and locks of
--   lithops/multiprocessing/synchronize.py and the processes that take and release one, its
--   conditions (`Conditions`), ListProxy of lithops/multiprocessing/managers.py (`Lists`, whose
--   `Refines` sets it against Python's list), Queue and JoinableQueue of
--   lithops/multiprocessing/queues.py with their processes, and RemoteReference of
--   lithops/multiprocessing/util.py (`References`).
-- Standalone models `handle_job` and `cancel_job_process` of lithops/standalone/master.py, for one job,
--   and BudgetKeeper of lithops/standalone/keeper.py with the times at which it is used. The fuel of
--   the loop that empties a queue is more than the queue's length. `Invocation` is `invoke` of
--   lithops/standalone/standalone.py, which looks for workers and creates machines; what the master
--   and the cloud answer is told from outside.
-- Localhost models the queue of lithops/localhost/v2/localhost.py, `run_job` with its tasks, the
--   consumers and `clear` as steps in any order, and CountDownLatch of lithops/utils.py. The processes
--   that run the tasks and the manager thread are left out.
-- Examples applies the theorems to small inputs.
--
-- Not modelled are the clients of object stores, the backends, the local processes and containers,
-- the rest of the standalone services and of the multiprocessing interface, the configuration and the
-- command line: they are calls of other libraries and of services, or work on dictionaries. Python's integers are
-- natural numbers here, and where a difference may be negative, its sign is written out. Floats occur
-- in the size of a chunk of a number and in a percentage, and are taken as exact; times are seconds,
-- or ticks of a clock.
pub mod Base
pub mod Partition
pub mod Stream
pub mod Payload
pub mod Future
pub mod Invoker
pub mod Retries
pub mod Job
pub mod Monitor
pub mod Wait
pub mod Worker
pub mod Storage
pub mod Executor
pub mod Redis
pub mod Multiprocessing
pub mod Standalone
pub mod Examples
pub mod Localhost
