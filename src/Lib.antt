-- ===== src/Lib.antt =====
-- WyrePlumber's orchestration runtime (src/wyreplumber/runtime): the detached values, the event
-- queue and the confirmed mutations that stand between native WirePlumber objects and a
-- long-lived consumer; and the codec of SPA pods (src/wyreplumber/spa_pod.py), in whose bytes
-- parameters are read and written.
--
-- A consumer captures a snapshot (runtime/models.py), then follows events (runtime/events.py)
-- that a native producer publishes into a bounded queue (runtime/queue.py), and captures again
-- when the queue or an event says that continuity is lost. To change the graph it makes a request
-- (runtime/controls.py): the executor checks it against a preflight snapshot, dispatches it once,
-- and captures snapshots until the predicates of the request hold or its deadline passes. All
-- values are frozen (runtime/_immutable.py).
--
-- Which file models which part:
-- - Value: the Python values that cross the boundary. Value.Checks and Builtins (`timestamp`) are
--   the validators of models.py; Value.Envelope is `to_dict` and `_serialize`; Value.Json is
--   `freeze_json`, `thaw_json`, `_mapping` and `_contract_value`; Value.Equality is Python's `==`
--   on frozen JSON; Value.Floats reads 64-bit patterns.
-- - Event: `RuntimeEvent` and `require_event_continuity`.
-- - Queue: `RuntimeEventQueue`. A method is one step under the condition's lock. Queue.Get has
--   `get`, whose waits are a schedule of what other threads do; Queue.Monitor the condition, with
--   who waits and whom the methods notify; Queue.History is a queue in use, and Queue.Refinement a
--   queue as an abstract stream.
-- - Model: the value objects (Objects), their constructors (Construct, Parts, Routes, Audio),
--   their serialization (Serialize), `_unique_index` (Index), the indexes of a snapshot (Contents),
--   `_find_unresolved_relationships` (Relations) and the constructor of `RuntimeSnapshot`
--   (Snapshot). Resolves says what it means that relationships resolve.
-- - Mutation: the enumerations and tables of controls.py (Kinds, Texts), targets and confirmation
--   predicates (Predicate), `MutationRequest` (Request), failures, confirmations and outcomes
--   (Outcome), dispatch tickets (Ticket), what a snapshot says of a target (Observation), the makers
--   of unsuccessful outcomes (Failures) and `_execute_confirmed_mutation` (Execution).
-- - Controls: the typed controls of controls.py, each from its arguments to what it gives the executor:
--   managed links (Links, Managed), metadata entries (Metadata), default nodes and stream targets
--   (Defaults), parameters and the mixer (Pods, Parameters), profiles and routes (Selection, Profiles,
--   Routes). What they dispatch, and when, is in Creation, Removal, Choices, RouteChoices and
--   Defaulting and Streaming, over Dispatched, in the terms of Claims (which links carry an identity)
--   and Compatible (which routes the active profiles allow); what they accept is in Bounds and Reserved.
--   `build_spa_pod` is an argument of the controls that write a pod.
-- - Spa: the SPA pod codec of spa_pod.py and _spa_pod_types.py. Wire and Bytes are the bytes; Datum
--   the Python values that the codec takes apart, and Codec what it takes from Python; Kinds,
--   Enums, Specs and Tables the constants and property tables; Objects is `SpaPodObject`. Parse,
--   ParseObject and Decode are `parse_spa_pod`, Infer, Build and Encode `build_spa_pod`; Structs,
--   Specialize and Prepare the shapes of property values. Loops and Fuel are about the parser's
--   fuel; Trees names the pods that come back, which RoundTrip, Scalars, Arrays, Numbers and Nested
--   prove; Shape, Names, Access, Entries and Dictionaries hold the rest of the proofs.
-- - Contract: `require_orchestration_contract` of runtime/contract.py.
-- - Prelude: shared names, tests on native numbers, exceptions as values. Tests: concrete inputs.
--
-- Exceptions are the errors of a `Result`; messages are kept where the code reads them back.
-- Numbers are natural numbers or integers without bounds, as in Python; doubles are their 64-bit
-- patterns, and what is done with them beyond sign and exponent is a field of `Builtins`, as are
-- `datetime` and the decimal rendering of integers. Of those, the proofs use one law, that
-- the ISO text of a moment reads back as that moment. `Codec` has what the SPA codec takes from
-- Python, with the law that a packed 32-bit float is 32 bits. Moments are UTC microseconds.
--
-- The loop of the executor runs on fuel, one unit for a round, which takes three steps: a reading of
-- the clock, a capture, a sleep. The connection and the clock are a `World` that says what each step
-- answers, so that every behaviour of them, failures included, is some `World`.
--
-- `parse_spa_pod` runs on fuel, the length of the bytes: a pod within a pod starts later, and where the
-- fuel is out there are no bytes. Its loops count the bytes of their container. `build_spa_pod` runs
-- on the depth that Python's stack has left, and raises its RecursionError where there is none; the
-- parser's RecursionError on bytes that nest too deeply is not modelled.
--
-- Not modelled: the native extension and the code that reads live objects, whose answers are
-- parameters; the decoding of native payloads (runtime/snapshot.py, runtime/normalize.py) and of
-- serialized values (`runtime_value_from_dict`); `__dir__` and `__repr__` of SpaPodObject, and the
-- constants that nothing but the tables of values uses; checks by isinstance on arguments
-- whose type the model fixes; packaging and release scripts.
pub mod Prelude
pub mod Value
pub mod Builtins
pub mod Event
pub mod Contract
pub mod Queue
pub mod Mutation
pub mod Spa
pub mod Controls
pub mod Model
pub mod Tests
