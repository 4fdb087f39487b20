-- ===== src/Lib.antt =====
-- The AI service of the food order system: a chat agent, a parser of orders, menu search and
-- recommendations over a language model, with their session store, result cache and metrics. This
-- library models the Python package ai_service/src/fos_ai and proves its parts correct.
--
-- A chat turn (Chat) runs the language model in a loop and answers its tool calls by way of the
-- dispatcher (Chat/Tools), which calls the parser (Parser), the search (Retrieval) and the
-- recommender (Recommend). The session store (Sessions) owns the conversation that a turn extends.
-- Results of searches and of parses go through the cache (Cache), which reports to the metrics
-- (Metrics), as does every call of the language model.
--
-- Base: the shared helpers. Base/Tests: Boolean tests and testable equality. Base/Lists, Base/Sort,
--   Base/Newest: lists. Base/Dict, Base/Entries, Base/Keys: Python's dict. Base/Parts: joined texts. Base/Text: str. Base/Int and Base/Json: the values of
--   json. Base/Float: an interface of floats, with Base/Whole as an instance. Base/Outcome: to return
--   or to raise.
-- Schemas: the data of ai_service/src/fos_ai/schemas.py and schemas_chat.py.
-- Llm: the provider-agnostic replies of ai_service/src/fos_ai/services/llm_client.py. Llm/OpenAi: the
--   conversion from and to the format of OpenAI, Llm/Providers: what both clients read, their streams
--   and create_llm_client. Llm/Conversion, Llm/Stream, Llm/Fragments, Llm/Final: their properties.
-- Chat: ChatEngine.run of services/chat_engine.py is `run`; the body of its loop is `loop`,
--   `after_reply` and `after_tools`; `exec_all` is the loop over the calls of a reply. Chat/Rounds, Chat/Calls, Chat/Protocol: the transcript. Chat/Tools, Chat/Tools/Schemas and
--   Chat/Tools/Dispatch: ToolExecutor and the tool definitions of services/chat_tools.py.
-- Parser, Parser/Schema, Parser/Prompt: parse_order, _resolve_food and _build_system_prompt of
--   services/parser.py. Parser/Resolve and Parser/Draft: what they resolve and answer.
-- Sessions: SessionStore of services/session_store.py over a heap of session objects, with a function
--   per method. Sessions/Table, Sessions/Ownership, Sessions/Capacity: its properties.
-- Cache: the decorator `cached` of obs/cache.py. `lookup` and `save` are its two locked regions and
--   `wrapper` is a call. Cache/Order, Cache/Bounds, Cache/Recency, Cache/Transparent: its properties.
-- Metrics: obs/metrics.py. Metrics/Ring, Metrics/Totals, Metrics/Percentile: its properties.
-- Retrieval, Retrieval/Hybrid: services/hybrid_search.py. Retrieval/Results, Retrieval/Fallback,
--   Retrieval/Fusion: its properties. Retrieval/Reranker: ml/reranker.py, and Retrieval/Loading: its
--   lazy load.
-- Recommend: services/recommender.py. Recommend/Unseen: what is recommended.
-- Endpoint: POST /ai/chat of routers/chat.py. `run_non_streaming` and `stream_generator` are its two paths.
--   Endpoint/Frames, Endpoint/Chatting: its properties.
-- Routers: the other routers of ai_service/src/fos_ai/routers. Routers/Failures: a parse without a cached
--   answer.
-- Orders: the rows of db/order_repo.py and db/menu_repo.py. Orders/Ownership: whose orders are shown.
-- Intent, Intent/Schema: FallbackIntentClassifier of services/intent_classifier.py. Intent/Labels: what
--   it answers.
-- Search: services/search.py. Search/Answers: what a search answers.
-- Tracing, Tracing/Wrapper: obs/tracing.py. `record_call` is _record; `wrapper` and `gen_wrapper` are the two
--   wrappers of trace_llm_call. Tracing/Rows: what a sequence of traced calls leaves in the metrics.
-- Training, Training/Templates, Training/Files: ai_service/training/fos_ai_training/intent/data.py.
--   Training/Texts, Training/Filling: the placeholders. Training/Balance, Training/Splits: the examples
--   and their split. Training/RoundTrip, Training/Command: files and the command. Training/Escaped is a
--   json to run them on.
-- Eval: the metrics of ai_service/eval/metrics. Eval/Judge: judge.py, with Eval/Votes, Eval/Readings and Eval/Verdicts.
--   Eval/ChatSuite, Eval/Suites: ai_service/eval/runners, with Eval/Scripted, Eval/Plans and Eval/Passing for the chat
--   suite. Eval/Gates, Eval/Exit: ai_service/src/fos_ai/eval/run.py.
-- The Tests modules run the models and apply the theorems at concrete data.
--
-- Numbers are unbounded, as in Python; prices are cents, times whole ticks of a clock, identifiers
-- natural numbers. `loop` of Chat recurs on the iterations that are left, of which the program allows
-- five. `fill_slot` of Training has a unit of fuel for each `{` of the text, which is
-- enough because every replacement removes one. Every other recursion is on a list, a text or a value of
-- json.
--
-- Arguments of the models, because their code is not in the repository: the language model, the BM25
-- index, the vector store, the reranker's model, torch's tensors and topk, str.lower, the split of a
-- query into words, hashing, repr and the texts of numbers and of pydantic's errors, pydantic's check of a quantity, json, clocks and uuid4, random
-- numbers, regular expressions, git, and floats. A theorem that relies on one of them has what it relies
-- on as a hypothesis: that sha256 has no collision and repr tells arguments apart, that a valid quantity
-- is at least one, that topk answers k places of its scores, that json writes an object in one line and
-- reads it back, that a shuffle is a permutation.
--
-- Not modelled: the SDKs of the two providers, the checks of requests by fastapi and pydantic, SQL and
-- cursors, start-up and settings, the LoRA classifier, the fine-tuning, the fixtures of the evaluation,
-- and the C++ server. Logging is left out everywhere. The results of a cache are compared as values; that a
-- caller may mutate a served object is not.
pub mod Base
pub mod Metrics
pub mod Cache
pub mod Schemas
pub mod Tracing
pub mod Sessions
pub mod Llm
pub mod Chat
pub mod Parser
pub mod Retrieval
pub mod Search
pub mod Recommend
pub mod Endpoint
pub mod Routers
pub mod Orders
pub mod Intent
pub mod Training
pub mod Eval
