-- ===== src/Lib.antt =====
-- The decision core of the governance package: whether an agent's intended action is allowed,
-- blocked or escalated to a human reviewer, by rules, delegated authority and human approval.
--
-- The parts and how they interact. A policy source is parsed into rules (governance/parser.py),
-- which are compiled into a policy: checked rules with parent links (governance/compiler.py,
-- governance/composition.py). An action of an actor is evaluated against the rules that apply to
-- it (governance/rule.py); authority that the actor does not have by its level may come from the
-- delegation graph (governance/delegation.py). An escalated action waits in the approval manager
-- (governance/approval.py), whose requests are bound to the fingerprints of the action, the
-- context, the policy and the graph (governance/audit.py). The interceptor
-- (governance/interceptor.py) puts an action through this and runs the operation or withholds it,
-- and appends what it decided to the audit log; the runtime adapter (governance/runtime.py) is the
-- boundary of the tools: it verifies who asks (governance/identity.py), calls the interceptor and
-- refuses a repeated request. Policies come as versioned bundles (governance/versioning.py), which
-- a manager brings through drafts, simulations, canaries and votes into environments
-- (governance/lifecycle.py).
--
-- Which file models what:
--   Prelude and its children: tests on the native numbers, signed integers, texts, lists, dicts in
--   insertion order, sorting, and the measure that bounds walks over a dict.
--   Errors: the exceptions, and computations that return or raise. Json: the JSON values.
--   Decimal: `str` and `f"{n:04d}"`.
--   Model: governance/model.py (Actor, Capability, Action, Context, Decision, their constructors).
--   Rule: governance/rule.py (Rule and its evaluation); Rule/Predicate: the comparisons that
--   governance/parser.py builds.
--   Parser/Shlex, Parser/Values, Parser/Laws: the line parser of governance/parser.py;
--   Parser/Policies: compile_policy on a source text.
--   Composition: evaluate_rules of governance/composition.py; Composition/Inheritance: the check
--   that a child rule tightens its parent, inherit_rules and validate_inheritance_graph.
--   Compiler: governance/compiler.py (compile_policy on parsed rules, CompiledPolicy.evaluate).
--   Delegation: the state of DelegationGraph; Delegation/Graph and Delegation/Methods: its methods
--   (register_intrinsic, grant, revoke, expire, has_authority, authority_proof and the walks below
--   them); Delegation/Calls: sequences of calls.
--   Audit/Fingerprints: the values that governance/audit.py takes fingerprints of; Audit/Events:
--   DecisionEvent; Audit/Log: AuditLog, its append and next_sequence; Audit/Replay: replay_event.
--   Approval: the state of ApprovalManager and ApprovalRequest, and VerifiedIdentity of
--   governance/identity.py; Approval/Manager: the constructor and the private methods;
--   Approval/Requests: request, approve, deny, prepare_resume;
--   Approval/Snapshots: to_dict, snapshot; Approval/Identity: the constructor of VerifiedIdentity;
--   Approval/Verifier: IdentityVerifier of governance/identity.py.
--   Interceptor: the state of the interceptor and its results; Interceptor/Methods: check, execute,
--   resume_approved.
--   Runtime: ToolCall, RuntimeAdapter; Runtime/Invoke: invoke.
--   Strip: methods of texts. Versioning: PolicyBundle and PolicyVersionStore of governance/versioning.py;
--   Versioning/Semver: _version_key; Versioning/Bundles: the methods of bundles;
--   Versioning/Store: the methods of the store; Versioning/Register: sequences of calls of the store.
--   Lifecycle: the data of governance/lifecycle.py; Lifecycle/Tables: dicts whose keys are tuples;
--   Lifecycle/Monad: methods that change the manager and return or raise; Lifecycle/Authoring: the
--   constructor, draft, validate; Lifecycle/Reports: simulations and the equality of reports;
--   Lifecycle/Rollout: simulate, canary, approve; Lifecycle/Deployment: deploy, rollback;
--   Lifecycle/Serving: monitor, current, promote, evaluate; Lifecycle/Calls: sequences of calls.
--   The other children of these modules hold proofs, and Examples the tests.
--
-- How the code is represented. Numbers are integers: times, amounts and budgets are whole ticks, and
-- a Python float that is not a whole number, infinite or not a number is outside of the model, but
-- for the moment `float("-inf")`. Booleans among parameters are 0 and 1, as Python compares them.
-- A callable of a rule is a reference together with a total function. A method that changes an
-- object returns the object's new state beside its result, also where it raises, so that changes
-- before an exception are kept. A request is an object that the manager holds under its id, so every
-- change of it is a change of the manager. The digest (SHA-256 of the canonical JSON text) is library
-- code and a parameter, of which nothing is assumed. `repr` of a text is written without escapes, and
-- the messages of Python's own TypeError are fixed texts. An operation that the interceptor may run
-- is a value or an exception, and results say whether it was started. The identity provider is a
-- parameter. White space and digits are those of ASCII. What Python's float makes of a text is a
-- parameter of the parser, and so of all that compiles a source. The clock of the lifecycle manager
-- has one reading in a call, its sample rate is a fraction, and the number that a case id hashes to is
-- a parameter. KeyError and IndexError of dicts and lists are exceptions of the model. Logging and
-- telemetry are left out.
--
-- Bounds. Walks over a dict carry fuel and raise RecursionError when it is used up: the check of the
-- parent links has one more than the number of rules, a chain of parent grants one more than the
-- number of grants, the reachability of an actor two more than the number of grants. A chain that
-- does not repeat an entry is never longer, since each step marks an entry of the dict. The decimal
-- digits of n are printed with fuel n + 1, which is more than n has digits.
--
-- Not modelled: the snapshots of the graph, from_snapshot of the approval manager, the JSON forms of
-- events and bundles that are read back, the difference of two bundles, the views of the lifecycle
-- manager, the reference identity provider, storage, the HTTP service and its client, telemetry, the
-- command line, and the benchmark, evaluation and conformance harnesses.
mod Prelude
pub mod Errors
pub mod Decimal
pub mod Model
pub mod Rule
pub mod Delegation
pub mod Composition
pub mod Compiler
pub mod Json
pub mod Audit
pub mod Approval
pub mod Interceptor
pub mod Runtime
pub mod Strip
pub mod Parser
pub mod Versioning
pub mod Lifecycle
mod Examples
