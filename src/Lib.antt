-- ===== src/Lib.antt =====
-- PrivAiTe replaces the personal data of a request by placeholders before a model provider sees it, and
-- puts the originals back into the reply. This library models the core of that path.
--
-- How the parts interact. The engine (privaite/pii/engine.py) asks every detector for the spans of a
-- text, merges them (entity.py), lets the values of an allow list through (allow_list.py), adds the
-- copies of credentials that it already knows, rejects the request if a type is blocked, and has the
-- anonymizer (anonymizer.py) replace what is left, which records each pair in the mapping of the request
-- (mapping.py). process_request does so for the messages of a chat request, and the gateway
-- (privaite/gateway/scrub.py) for the requests of two more protocols. A reply is restored at once
-- (deanonymizer.py, privaite/gateway/restore.py) or fragment by fragment (privaite/streaming/buffer.py),
-- with a buffer for each text stream in it. Around it stand two caches, the statistics of the sessions, a
-- limit on the size of a request, and the check of the keys.
--
-- The files, and the code that they model:
--   Prelude      texts, dictionaries, prefixes and decimals, which all others share
--   Json         JSON documents
--   Entity       privaite/pii/entity.py: PIIEntity, merge_entities and its helpers
--   Literal      privaite/pii/mapping.py: PLACEHOLDER_LITERAL, as a matcher
--   Mapping      privaite/pii/mapping.py: PIIMapping
--   Anonymizer   privaite/pii/anonymizer.py: anonymize, _shield_literals, _make_placeholder
--   Restore      privaite/pii/deanonymizer.py: _deanonymize_exact
--   Stream       privaite/streaming/buffer.py: StreamingDeAnonymizer
--   Completion   privaite/streaming/handler.py: stream_text_response
--   AllowList    privaite/pii/allow_list.py: AllowRule.allows, apply_allow_list
--   Known        privaite/pii/engine.py: _with_known_values, _type_priorities
--   Engine       privaite/pii/engine.py: _detect_all, _anonymize_text, _walk_anonymize
--   Action       the steps that change the mapping of a request and may reject the request
--   Messages     privaite/pii/engine.py: process_request, process_response and what they call
--   Gateway      privaite/gateway/scrub.py, protocols.py and restore.py, json_escaped_mapping of
--                privaite/streaming/buffer.py, scrub_document and gate_document of the engine
--   Chunk        privaite/pii/detector_base.py: chunk_text
--   Windowed     privaite/pii/detector_base.py: windowed_ner_detect
--   Ordered      the operations of OrderedDict that the two caches use
--   Cache        privaite/pii/cache.py: DetectionCache
--   WindowCache  privaite/pii/window_cache.py: WindowCache
--   Tracker      privaite/pii/tracker.py: PIITracker
--   Limits       privaite/middleware/limits.py: RequestSizeLimitMiddleware
--   Auth         privaite/middleware/auth.py and privaite/utils/security.py
--
-- A text is the list of its code points, a `dict` an association list in insertion order. An object
-- that the code mutates is a record that its operations return anew; an exception is a constructor of
-- a result type. Of an asynchronous function, the model is what it computes.
--
-- Parameters, for what is not the program's own code: the scores of the detectors with their
-- comparison, the detectors themselves (functions of a text that may fail), the fake values of the
-- library Faker, the regular expressions of the rules for secrets and of the allow list, the digests
-- that serve as keys, the reader and the printer of JSON texts, which values Python takes as equal keys,
-- and Unicode's tables for `\d`, `isdigit`, `isalnum` and `strip`.
--
-- Bounds. The search for a free placeholder number gets one round more than there are taken texts,
-- which is enough, since the placeholders of different numbers differ. A text is cut into windows
-- in as many rounds as it has characters, which is enough, since each window starts after the one before
-- it. A fake value is tried eleven times, as in the code. JSON source within JSON source is restored as
-- deep as the longest text is long, which is enough if a text in what is parsed is shorter than its
-- source. Everything else recurs on its data. Times are natural numbers of ticks.
--
-- Not modelled: the fuzzy restore, the refinement of spans at the syntax around them, the token windows
-- of the detectors, the chunks of a chat completion in the streaming handler, the lookup of the detection
-- cache inside the engine. Outside the model as well: the libraries, the HTTP endpoints, the command line,
-- the validation of the configuration and the host plug-ins.
pub mod Prelude
pub mod Json
pub mod Entity
pub mod Literal
pub mod Mapping
pub mod Anonymizer
pub mod Restore
pub mod Stream
pub mod Ordered
pub mod Cache
pub mod WindowCache
pub mod Limits
pub mod Auth
pub mod AllowList
pub mod Known
pub mod Engine
pub mod Chunk
pub mod Windowed
pub mod Action
pub mod Messages
pub mod Gateway
pub mod Completion
pub mod Tracker
