-- ===== src/Lib.antt =====
-- Verification library of the Spakky framework, a Python framework of services.
--
-- Parts of the program and the files that model them:
--   * Sagas, core/spakky-saga/src/spakky/saga. A flow is a list of steps and of parallel groups of
--     steps. The engine runs the items in order; each step that commits has its compensation
--     remembered, and a failure or a timeout runs the remembered compensations backwards.
--     Saga/Strategy.antt has strategy.py, status.py and result.py; Saga/Flow.antt the types and
--     operators of flow.py, Saga/Flow/Build.antt its builders step, parallel and saga_flow.
--     Saga/Engine/State.antt has the state of a SagaExecutor (saga_data, compensable, history) and
--     the methods that record; Normalize.antt `_normalize*`; Steps.antt `_invoke_*`,
--     `_execute_serial_step`, `_apply_*` and `_execute_parallel`; Run.antt `_run_compensation`,
--     `_run_items`, `_run_with_saga_timeout` and `run`. What a run is to do is said there by
--     Trace.antt (the history), Invoking.antt (the calls of a step), Undoing.antt (those of the
--     compensations), Settling.antt (the results of a group) and Forward.antt (items).
--   * Authorization, core/spakky-auth/src/spakky/auth. Auth/Decision.antt, Auth/Context.antt,
--     Auth/Metadata.antt and Auth/Ports.antt have the data of a request, the effective metadata of
--     a call and the ports of the providers. The saga engine asks Saga/Auth.antt
--     (saga/auth.py) before each action and each compensation. Auth/Aspect.antt has the aspect of
--     aspects/authorization.py around a protected method.
--   * Policy documents, plugins/spakky-policy/src/spakky/plugins/policy. Policy/Model.antt has
--     model.py. The methods of PolicyDocumentEvaluator, which answers the provider ports, are in
--     Policy/Conditions.antt (conditions on claims), Policy/Matching.antt (which statements match)
--     and Policy/Evaluator.antt (`evaluate` and the checks).
--   * The container, core/spakky/src/spakky/core/application/application_context.py.
--     Container/Registry.antt has `add` and `bind`, Container/Resolve.antt `__resolve_candidate`,
--     Container/Caches.antt the caches of instances, Container/Instantiate.antt `__instantiate_pod`
--     with its dependencies and `get`.
--   * Aspects, core/spakky/src/spakky/core/aop. Aop/Advisor.antt has the advice of an aspect around a
--     call (advisor.py), Aop/Weaving.antt the choice and order of aspects (post_processor.py).
--   * Transactions, core/spakky-data/src/spakky/data. Data/Transaction.antt has
--     persistency/transaction.py and the aspect of aspects/transactional.py.
--   * Events, core/spakky-event/src/spakky/event and the aggregates of core/spakky-domain.
--     Event/Aggregates.antt has aggregates and their collector, by reference in a store;
--     Event/Mediator.antt the mediator and the publisher; Event/Publishing.antt the aspect that
--     publishes after a method returned. Event/Commit.antt weaves this aspect and that of
--     transactions around one method, as their @Order says.
--   * Tracing, core/spakky-tracing/src/spakky/tracing. Tracing/Context.antt has the trace context and
--     its header (context.py), Tracing/Hex.antt the texts and digits, Tracing/Propagator.antt
--     w3c_propagator.py.
--   * Agents, core/spakky-agent/src/spakky/agent. Agent/State.antt has the state and the signals of
--     an agent, Agent/Cancellation.antt cancellation.py, Agent/Approval.antt the parsing of
--     decisions and the state after them (approval.py), Agent/Signals.antt signal_consumption.py.
--   * Health, core/spakky-actuator/src/spakky/actuator. Actuator/Health.antt has result.py,
--     Actuator/Service.antt the registry of probes and the evaluation of an endpoint (service.py).
--   * The outbox, core/spakky-outbox/src/spakky/outbox. Outbox/Relay.antt has `_relay_batch` of
--     relay/relay.py over the ports of storage and transport.
--
-- How the code is modelled. Code that meets the outside is a function of a world `W` to a result and
-- a world (Effects.Io); a result is returned or raised (Effects.Result), and Effects.Exn lists the
-- exception classes that the code tells apart. `self` is a record that is passed along. The user's
-- functions, the providers and asyncio (monotonic clock, sleep, timeout, gather) are parameters:
-- records of functions about which nothing is assumed unless a theorem says so. Numbers are
-- natural numbers; times are counted in the clock's unit. A number in a claim or in a policy stands
-- by a code, one for each value that Python's == tells apart.
--
-- Fuel. The loops over steps, retries and compensations are structural. A condition of a policy may
-- name another condition, which may name it again; its evaluation recurses on fuel, the depth of
-- calls left, and raises recursion_error at its end, as Python raises RecursionError. So does the
-- instantiation of Pods, for which a depth above the number of Pods is enough.
--
-- Not modelled: the inspection of classes for Pods, pointcuts, adapters to third-party frameworks
-- and brokers, and the reading of Python annotations, of which the models take the result.
pub mod Common
pub mod Actuator
pub mod Agent
pub mod Aop
pub mod Auth
pub mod Effects
pub mod Event
pub mod Container
pub mod Data
pub mod Outbox
pub mod Policy
pub mod Saga
pub mod Tracing
