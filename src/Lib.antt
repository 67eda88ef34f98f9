-- ===== src/Lib.antt =====
-- OpenVoice: an agent that answers a phone call, talks through a language model and books
-- appointments. A call's audio is cut into utterances; a conversation
-- (src/openvoice/agent/conversation.py) asks the model for each one, runs the tools that it calls
-- and returns or streams the reply; the reply is cut into sentences and spoken; the tools act on a
-- booking service, which keeps a database, an external calendar and the sending of messages in step.
--
-- Files, and what they model (paths without a leading src/ are below src/openvoice):
--   Base           lists and tests on native numbers, Python's text operations, results that may be
--                  errors, JSON values, datetimes in microseconds
--   Llm            src/openvoice/llm/base.py; Llm/Anthropic and Llm/Openai the wire formats, generate and
--                  generate_stream of llm/providers/anthropic.py and llm/providers/openai_compatible.py
--   Reply          agent/base.py and agent/structured_reply.py: the parser of complete completions and
--                  the extractor that reads a stream; Reply/Stream/Feeding the extractor's invariant
--   Conversation   agent/conversation.py: Conversation/Loop is handle_utterance, Conversation/Stream
--                  handle_utterance_stream, Conversation/History the history as whole turns
--   Db             db/models: the rows and the session operations that the program uses
--   Config         config.py: the settings and their validation; Config/Factories the factories of
--                  llm, stt, tts, calendar and notifications
--   Booking        booking/service.py with calendar/base.py and notifications/base.py:
--                  Booking/Slots the search for slots, Booking/Service the four other operations
--   Crm            crm/service.py: callers' records and their calls
--   Tools          agent/tools/booking.py: the tools' schemas and the executor
--   Telephony      telephony/livekit_agent.py (Speech: tts_node and its sentences and frames;
--                  Agent: stt_node, llm_node and telephony/pipeline.py) and telephony/worker.py (Call:
--                  the phone number, the call's row, the transfer, the end of a call)
--   Voice          audio.py, stt/providers/faster_whisper.py and tts/providers; Utterances and Heard are stt_node with
--                  faster-whisper, Elevenlabs the frames that are played of that provider
--   Google         calendar/providers/google_calendar.py
--   Notifications  notifications/providers: the messages to Twilio and Resend, with their retries
--                  (Attempts and Delivery: how they end; Atomic: bookings with these senders)
--   Services       what a process is put together from: api/dependencies.py, agent/prompts.py and the
--                  set-up in telephony/worker.py (Entrypoint); Line is a conversation with the tools,
--                  Models one with a provider, Ready the start of a call's agent, Finished a call
--                  from its start to its end
--   Summary        tasks/summarize_call.py: the summary of a call
--   Api            api/routers and the exception handlers of main.py; Api/Schedule is an abstract
--                  schedule, which the operations on appointments refine
--
-- The state of a component is a record that its operations take and return; an exception is a value
-- of Base.Result.Error. The model, the calendar, the senders, pydantic, json, uuid, strftime and
-- LiveKit are not code of the repository: they are parameters, functions of what they were asked
-- before or of a world that only they read. httpx, tenacity's retryer, numpy and the speech models, Google's
-- client and FastAPI's routing are parameters in the same way. What a theorem needs of them is a named hypothesis.
--
-- Bounds. Counts are native natural numbers, texts are lists of code points and instants are
-- microseconds since datetime.min with Python's range checked where the code does arithmetic. The tool
-- loop recurses on the iterations left, which is the range() of the source. The two loops of
-- find_available_slots and the loop of tts_node recurse on fuel: a day's fuel is more than the minutes
-- in a day, the days' fuel is more than the number of days up to the end of the search, the sentences'
-- fuel is the length of the buffer; that it is enough is part of the theorems about them.
--
-- Not modelled: concurrency between calls (the source documents the race of two bookings), SQL and
-- transactions beyond what a commit changes, the lengths of columns other than a phone number's, migrations, logging, metrics other than the counters of a
-- conversation, the Celery worker and its retries, how pydantic reads the environment and
-- the bodies of requests, naive datetimes in the API, and the start of a LiveKit session.
pub mod Base
pub mod Llm
pub mod Reply
pub mod Conversation
pub mod Db
pub mod Config
pub mod Booking
pub mod Crm
pub mod Tools
pub mod Telephony
pub mod Voice
pub mod Google
pub mod Notifications
pub mod Services
pub mod Summary
pub mod Api
