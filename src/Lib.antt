-- ===== src/Lib.antt =====
-- Models of the trigger generation of SmartHPA in Python: history of replica counts in, scaling
-- triggers out; and of the Go code that schedules those triggers.
--
-- The parts of ml/v2, in the order in which `TriggerPipeline.run` calls them:
--   * V2.Config (ml/v2/config.py): the configuration classes, the patterns and the triggers, the label
--     selector, and `to_dict`, the form of a trigger that the controller reads.
--   * V2.Data: the arrays that the parts hand on, `ReplicaMetrics` of ml/v2/data_fetcher.py and
--     `ProcessedData` of ml/v2/preprocessor.py. An array is a list, a matrix a list of rows.
--   * V2.Fetcher (ml/v2/data_fetcher.py): `fetch` asks Prometheus with one query, then with another,
--     and takes the sample data of V2.Fetcher.Sample if neither answers with data; `parse_response`
--     merges the series.
--   * V2.Preprocessor (ml/v2/preprocessor.py): `preprocess` is `DataPreprocessor.process`. It cleans the
--     values, puts them into buckets by day and hour, and computes statistics of each.
--   * V2.Model (ml/v2/model.py): `infer` runs six detectors, each over the cells of its days and hours,
--     and keeps the confident patterns.
--   * V2.Postprocessor (ml/v2/postprocessor.py): `process` makes a trigger of each pattern, sorts by
--     priority and drops triggers with a window that was there before; without patterns it makes
--     default triggers. `to_smarthpa_spec` writes the specification.
--     Its texts of hours, days and names are in V2.Naming.
--   * V2.Synthetic (ml/v2/synthetic_data.py): the generator of test data, its training sets, the files
--     of `save_to_json` as values, and the patterns that are expected of it.
--   * V2.Pipeline (ml/v2/pipeline.py): the object's state is the record `Pipeline`; `run` gives the
--     outcome and the state after it, also after an exception.
--   * V2.ApiHandler (ml/v2/api_handler.py): `generate_triggers` answers a request, exceptions included, and
--     `main` takes it from the arguments. As in V2.Cli, the fetcher is an argument that may raise or not
--     end; V2.Fetcher.Sample has the source's own as `fetch` and `fetched_at`. What `json.loads` gives is
--     one of four cases: a request, JSON that is no object, a `JSONDecodeError`, another exception.
--   * V2.Cli (ml/v2/pipeline.py): the texts of a pipeline, and the command line with its file.
-- The first version in ml, which shares the shape of its triggers and none of the state:
--   * V1.Config (ml/config.py): the label selector, the settings, the suggested triggers.
--   * V1.Generator (ml/trigger_generator.py): `generate` makes a suggestion of each pattern, limits their
--     number, and sets their priorities and names. The patterns are its argument. V1.Naming has the
--     patterns' record and the texts.
--   * V1.Prometheus (ml/prometheus_client.py): the range query and its parser, and in V1.Prometheus.Sample
--     the sample data and `fetch_all_metrics`. A data frame is a list of rows of named cells.
--   * V1.Analyzer (ml/pattern_analyzer.py): the search for the number of clusters, the times of a cluster's
--     slots, `_refine_patterns` over the rows of the data frame, and `_merge_similar_patterns`; in
--     V1.Analyzer.Detect, over the tables of V1.Analyzer.Tables, the rest of `analyze`.
--   * V1.Cli (ml/generate_triggers.py, ml/analyze_patterns.py): the scripts, which make the object of
--     ml/trigger_generator.py, fetch, analyze, and print an answer. V1.Cli.Files has the texts, the files
--     and the command line of ml/trigger_generator.py.
-- The Go side, which reads the triggers that ml writes:
--   * Scheduler (api/v1alpha1/smarthorizontalpodautoscaler_types.go, internal/scheduler/scheduler.go): the
--     triggers with their days, time windows and crons. Scheduler.Decode reads a stored object and makes
--     its context, Scheduler.Context has the callbacks of the context as functions on its state, and
--     Scheduler.Steps their sequences. Scheduler.Agreement, Scheduler.Cron and Scheduler.Spec are about
--     V2.Postprocessor and the scheduler together.
--   * Controller (internal/controller/smarthorizontalpodautoscaler_controller.go): the cluster as the
--     controller sees it for one object; Controller.Reconcile has `Reconcile`, and Controller.Guarded the
--     scheduler's worker that takes what the controller sends, and what others do between.
-- The children of these modules hold the proofs about them. Prelude has the shared lists, Python's
-- errors, integers, texts and `sorted`; Json the values of the answers; Clock the calendar, a datetime
-- being its microseconds since year 1; Files the writers of files; Host what the code takes from
-- numpy's random generator and from the clock; Tests the examples.
--
-- A call that may raise is a `Result`. Floats are a parameter: the record `Float` of Float.antt names
-- the operations that the code takes from Python and numpy, and a theorem that needs a law of them has
-- it as a hypothesis. The HTTP session, the calendar, and numpy's sorting are the record `Client` of
-- V2.Fetcher. A time that Python's datetime cannot hold raises there, and in `Host`. Python's `int` is
-- the unbounded ℤ of Prelude.Int; hours, days, counts and priorities are natural numbers; the
-- priorities of V1 may be negative, so they are integers. Loops over lists or a known number of turns
-- are structural recursion. The loops of the generators over times run on fuel, with a turn for each
-- minute of the range, which is enough where a step is a minute at least; `none` stands for a loop
-- that does not end. `sorted` is an insertion sort, since every stable sort gives its result. A call
-- in the model may be written before the test that guards it, and then its result is used on the
-- guarded branch only. In the scheduler, one callback runs at a time and at one instant, and Go's maps
-- are lists in any order.
--
-- Not modelled: what is printed on the way, argparse and the writers of YAML and JSON, ml/examples, and of
-- the Go code the servers, the set-up of the controller with its watches, and more than one worker with
-- their locks. `Reconcile` and the worker's turn are one step each, whose calls are answered in any way.
-- Joining and grouping of data frames, the scaler, KMeans and its score are the record `Tools` of
-- V1.Analyzer.Tables; Go's time zones and formats are the record `Times` of Scheduler; the finalizers, the
-- conditions and the storage of the API server are the record `Machinery` of Controller.
pub mod Prelude
pub mod Float
pub mod Clock
pub mod Host
pub mod Json
pub mod Files
pub mod V2
pub mod V1
pub mod Scheduler
pub mod Controller
pub mod Tests
