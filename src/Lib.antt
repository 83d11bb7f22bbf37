-- ===== src/Lib.antt =====
-- A model of the C# benchmark for language models: the code that takes a solution from a model's
-- answer, checks and evaluates it in a container, scores it, and chooses a temperature by the
-- scores.
--
-- A run goes as follows. benchmark/cli.py loads tasks (benchmark/tasks.py) and validates them,
-- asks a model for a solution of each task, takes the code from the answer
-- (benchmark/solution.py), evaluates it in a Docker container (benchmark/runner.py), and scores
-- the result (benchmark/scorer.py). In the discovery phase it does so for each temperature and
-- goes on with the best one. A run may first measure the server's speed and choose the number of
-- workers and the timeouts by it (benchmark/calibration.py).
--
-- Files, with the code they model:
--   Prelude      shared names; Prelude/Numbers: the floating-point interface; Prelude/Order:
--                Python's comparison of tuples and `max` with a key; Prelude/Sort: `sorted` and
--                `set`; Prelude/Pigeonhole: counting the different elements of a list
--   Source       benchmark/solution.py. Source/Strip: `_strip_csharp_comments_and_literals` and
--                the functions that it calls, on an index and a list of characters; Source/Scan: a
--                machine that reads one character at a time, the specification; Source/Cursor,
--                Source/Loops, Source/Literals and Source/Calls: each loop against the machine;
--                Source/Refine, Source/Shape: what the stripping does; Source/Extract:
--                `extract_solution_code`
--   Tasks        benchmark/tasks.py. Tasks/Model: `Task`, `ScoreConfig`, `TestGroup`;
--                Tasks/Validate: `validate_tasks`; Tasks/Select: `load_tasks`,
--                `select_discovery_tasks`; Tasks/Paths: `relative_path` of benchmark/workspace.py;
--                Tasks/Project: its `restore_project` and what it calls; Tasks/Capture: its
--                `capture_project`, with what it finds in Tasks/Capture/Checked and
--                Tasks/Capture/Walked
--   Runner       benchmark/runner.py. Runner/Result: `CommandResult`, `TaskRunResult`;
--                Runner/Docker: the commands of `DockerRunner`; Runner/Trx: `parse_trx_results`;
--                Runner/Groups: `_evaluate_test_groups`; Runner/Evaluate: `evaluate`, whose early
--                returns and `finally` clause are functions of their own
--   Scorer       benchmark/scorer.py: `score_task`, `score_benchmark`
--   Discovery    benchmark/cli.py: `_select_best_temperature_run`, `_completed_task_scores`,
--                `_build_discovery_reuse_map`, `_load_existing_task_score`,
--                `_infer_selected_temperature`; benchmark/report.py: `_discovery_payload`
--                (Discovery/Reuse/Exact: which stored results are reused)
--   Calibration  benchmark/calibration.py. Calibration/Config: the settings of
--                benchmark/config.py; Calibration/Measure: `calibrate`, `calibrate_concurrency`,
--                `calculate_timeout`; Calibration/Saved: `load_calibration`
--   Json         values as Python decodes them from JSON (Json/Fields), and the operations of
--                Python on them that the code uses (Json/Python)
--   LmStudio     benchmark/lmstudio_meta.py. LmStudio/Server: `derive_base_root`,
--                `is_local_server`; LmStudio/Match: `match_model`; LmStudio/Meta:
--                `parse_model_meta`, `fetch_models`; LmStudio/Resolve: `resolve_model_meta`,
--                `fetch_loaded_models`
--   Scripts      the scripts that complete older summaries. Scripts/Files: the results directory
--                and its JSON files; Scripts/KvCache: scripts/backfill_kv_cache_quantization.py;
--                Scripts/ModelSize: scripts/backfill_model_size.py, which calls LmStudio
--                (Scripts/ModelSize/Change: what it may write)
--   Queue        benchmark/cli.py: `_run_generation_queue` with `_queue_evaluation`,
--                `_complete_evaluations` and `_cancel_all_pending_work`, in Queue/Rounds.
--                Queue/Loop, Queue/Runs: what a step keeps, the loops keep; Queue/Steps,
--                Queue/Progress, Queue/Scored: what a step does; Queue/Futures: the dictionaries
--                of futures; Queue/Reach: the reachable states as a relation
--   Campaign     benchmark/campaign.py, with benchmark/cli.py, `run`. Campaign/Model: what
--                campaign.json and summary.json hold; Campaign/Validate: `validate_pair_summary`;
--                Campaign/Pairs: the class `Campaign`; Campaign/Run: the loop over the pairs, and
--                the branch for a single one, with what an update, a round and the loop do in its
--                child modules
--   Events       benchmark/agent_events.py: `copy_compact_events`; Events/Compact: the lines that
--                are kept, its reference
--   Examples     concrete inputs at which the theorems apply
--
-- Two scripts complete the summaries of older runs. scripts/backfill_kv_cache_quantization.py
-- needs only a summary; scripts/backfill_model_size.py asks a local LM Studio server for its
-- library (benchmark/lmstudio_meta.py) and takes the size of the matching entry.
--
-- State. A script's state is the list of run directories, the lines printed, the counts and the
-- cache of fetched libraries, passed from round to round; an exception ends the walk and leaves
-- the remaining directories as they are. The runner's state is `Machine`: the registered
-- containers and the commands so far. What runs outside, docker and other threads, is a parameter
-- (`World`) that answers by the events so far, so a theorem holds for whatever docker and a
-- concurrent `cancel` do. Exceptions are values: `none`, `Outcome.raised` or an error type.
--
-- Fuel. The loops of Source/Strip take one more than the number of characters; each round moves
-- the index forward, and strip-scan shows that this is enough for every text. The outer loop of
-- the queue takes twice the number of tasks and one: each round completes a generation or an
-- evaluation.
--
-- Futures are numbers in the order of submission. What they give, and which of them `wait` returns
-- in which order, is the parameter `Pool`, which answers by the events so far; its law `WaitLaws`
-- is that `wait` returns one of the futures that it is given, or more.
--
-- In a calibration the server and the clock are the parameter `Laboratory`, which answers by the
-- rounds of probes and the readings of the clock so far.
--
-- A run over several suites or agents, or over the evolution suite, is a campaign
-- (benchmark/campaign.py). Its state is the object `Campaign`, the file campaign.json, the
-- summaries of its pairs and the results so far. An exception leaves what was changed before it,
-- as when a pair is marked as completed before its summary is validated.
--
-- Parameters. Python's `re`, `str`, `pathlib` and `sorted`, docker, the file system and the hash of
-- a task are not in the repository and are arguments: `Regexes`, `event_type`, `PathLib`,
-- `Strings`, `World`, `Setting`, `Laboratory`, `TaskFiles`, `Disk`, `Workspace`. What
-- `_execute_benchmark` and `_load_completed_pair` do for one pair of a campaign is the parameter
-- `Executor`. The record `Python` holds the methods of str,
-- `int`, equality and `urlparse` on JSON values, `JsonText` is `json.loads` and `json.dumps`, and
-- `respond` is the servers' answers by the addresses that were asked before; `Resolver` and `Tool` are
-- the name resolver and the local tool of LM Studio. Floating-point numbers are the interface
-- `Numbers`; a theorem on scores names the laws of IEEE arithmetic that it uses (`OrderLaws`,
-- `RatioLaws`, `ComparisonLaws`, `NegLaws`), which rounding and infinities satisfy.
--
-- Not modelled: the generators and agents (benchmark/generation.py), argument parsing, the
-- dashboard and the queue that prepares ahead of benchmark/cli.py, the gathering of a campaign's
-- protocol and its times, the hash of a task and the diff of a delivery, reports and charts, the
-- reading of YAML and of JSON texts, the rebuilding of a saved calibration, and the contents of
-- copied files. Exceptions that are left out: KeyboardInterrupt, a text of a process that cannot be
-- decoded, a log or campaign.json that cannot be written, a path that obstructs a write, a request
-- that raises before it is sent, and a size too large to print.
pub mod Prelude
pub mod Json
pub mod Source
pub mod Tasks
pub mod Runner
pub mod Scorer
pub mod Discovery
pub mod Calibration
pub mod Queue
pub mod Campaign
pub mod Events
pub mod LmStudio
pub mod Scripts
pub mod Examples
