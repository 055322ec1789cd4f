-- ===== src/Lib.antt =====
-- Verification of openbotstack-core, the control plane of an assistant platform: which requests are
-- allowed, which configuration an assistant runs with, which plan may be executed, which skills and
-- model providers are available.
--
-- The files and the code that they model:
--
--   Base          shared names, lists, maps, texts, signed integers, sorting
--   Value         the dynamic values (any) that JSON decodes to
--   Policy        control/policy/policy.go: Enforcer with Evaluate, AddRule, RemoveRule, ListRules.
--                 Matching has the patterns and the conditions, Decision the choice of a rule, Filing
--                 the invariant of the store, Adding and Removing the two updates
--   Profile       control/profile/profile.go, scope.go, merge.go, personas.go. Scope has ValidateScope,
--                 Merge the merge of the global, tenant and session profiles, Matrix and Reports the
--                 permission matrix that they implement, Vocabulary the personas and domains
--   Validation    validation/schema.go and JSONSchema of ai/types/types.go. Values and Checks have the
--                 functions of one schema, Schema the recursion over it, Conformance what it is to
--                 conform, Input the validation of JSON texts
--   Plan          execution/plan.go and planner/plan_validator.go, plan_limits.go: Validate,
--                 GroupParallelSteps, the limits on a plan, and Prepare, which makes a step ready.
--                 Replan models planner/replan.go, where the plan of the model is a parameter
--   Registry      registry/skills/base.go and in_memory_registry.go: MapStore and InMemoryRegistry.
--                 History has the view of a subscriber while calls interleave, Permissions the two listings
--   Router        ai/router/router.go: DefaultRouter with Route, Register, Replace, Unregister, List
--   Audit         audit/event.go, envelope.go and emitter.go: the envelope of an event, its
--                 classification, and the delivery of events to subscribers
--   Capability    capability/types.go, adapter.go and memory_registry.go: MemoryCapabilityRegistry, and
--                 the capabilities made of MCP and native tools
--   Template      execution/template/engine.go: Numbers has the coercion of texts, Names the resolution of
--                 a reference, Fields the walk along a path, Resolve the templates of a text
--   Providers     ai/providers and ai/types/content.go. Content and Requests have the bodies of the
--                 requests, Retries the loops that send them, Answers the replies, Deltas and Events a
--                 stream of OpenAI, Messages a stream of Anthropic, Clients the providers of the factory
--   Retrieval     ai/retrieval/pipeline.go: the chunks of a document, their ranking for a query (Ranking),
--                 and the context within a limit (Budget)
--   Telemetry     telemetry/metrics.go: the labels and the meter in memory
--   Safety        ai/safety/safety.go: the checks of inputs and outputs, and the masking of personal data
--   Mcp           mcp/server.go and its messages in mcp/types.go: the dispatch of JSON-RPC requests
--
-- The parts are composed as the code composes them: the registries of skills and of capabilities keep
-- their entries in the same generic store, a step of a plan carries the schema of its output, a plan
-- passes the limits of the planner before it is validated and frozen, Prepare resolves the arguments of
-- a step with the template engine, and a provider reads its replies with the loops of Retries.
--
-- How the code is read:
--   * A Go map is an association list, whose order is the order in which range visits it, which Go
--     leaves open. A theorem for every list is a theorem for every order; NodupKeys says that a key
--     stands once, as a Go map guarantees.
--   * A method that changes its receiver takes the state and returns it, with the error as an option
--     or a data type that says which error it is; the texts of messages are not modelled. A method that
--     holds a mutex is one step; Register and Unregister of the skill registry, which call the
--     subscribers after they have released it, are the steps that they take, between which those of
--     other calls may come.
--   * A pointer that may be nil is an option. A text is its characters, and len(s) the bytes of its
--     UTF-8 encoding. An int is a signed integer, which the code compares, or its 64-bit word where the
--     code computes with it; a float64 is its bits.
--   * What is not in the repository is a parameter: sort.Slice (any function with the laws of sorting),
--     uuid.NewString (a sequence of texts), json.Marshal and Unmarshal, regexp.Compile, strings.TrimSpace
--     and ToLower, fmt.Sprintf, and the arithmetic and comparison of float64. net/http, bufio.Scanner and
--     the context are what they return to each call: the reply to each attempt, the lines of a stream,
--     whether a chunk is taken in time. The regular expression of templates is the pieces into which it
--     takes a text apart. sort.Strings and sort.SliceStable are an insertion sort, which has the same
--     result.
--
-- Recursion is on the structure of lists, values and schemas. Fuel is taken by the outer loop of
-- GroupParallelSteps, whose fuel is the number of the steps: each turn takes at least one, so that it
-- does not run out. The loop of resolveTemplateContent takes the length of the text, since each turn
-- shortens its candidate, and the printing of a number takes the number itself. The loops that repeat a
-- request count the attempts that are left.
--
-- Not modelled: the prompts and the parsing of a model's answers (planner, control/profile/prompt.go),
-- the interfaces that other repositories implement (access, memory, control/agent), and the parts that
-- hold no logic of their own (assistant, planning, internal/version). The MCP client
-- and the events and traces of telemetry are left out.
pub mod Base
pub mod Audit
pub mod Capability
pub mod Mcp
pub mod Plan
pub mod Policy
pub mod Profile
pub mod Providers
pub mod Registry
pub mod Retrieval
pub mod Router
pub mod Safety
pub mod Telemetry
pub mod Template
pub mod Validation
pub mod Value
