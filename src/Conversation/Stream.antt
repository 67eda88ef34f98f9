-- ===== src/Conversation/Stream.antt =====
-- `handle_utterance_stream` of src/openvoice/agent/conversation.py.
pub mod Turns
pub mod Same
use open_voice.Base.{
  ℕ, Option, none, some, List, [], ◌∷◌, ◌++◌, if◌then◌else◌, length, take, is_empty,
}
use open_voice.Base.Text.{Text}
use open_voice.Base.Result.{Error, ok, err}
use open_voice.Llm.{Role, text_message}
use open_voice.Reply.{Intent, fresh, feed_all, finalize}
use open_voice.Conversation.{
  Providers, State, llm_errors_total, trim_history, fallback_reply, call_limit_reply, reply_of,
  fallback_message, call_limit_message, with_history, open_turn, set_last_reply,
}
use open_voice.Conversation.Loop.{call_limit_reached, handle_utterance}

-- the pieces that are yielded are not empty
abbrev pub speakable : List Text → List Text
speakable [] = []
speakable (t ∷ ts) = if is_empty t then speakable ts else t ∷ speakable ts

abbrev pub optional_chunk : Text → List Text
optional_chunk t = if is_empty t then [] else t ∷ []

module _ {W : Type 0} (p : Providers W) where
  -- the branch of `handle_utterance_stream` with tools
  unfoldable pub stream_with_tools : Text → State W → (List Text × Option Error) × State W
  stream_with_tools caller_text s =
      let (r, s') = handle_utterance p caller_text s in
      elim r [
        | err e ↦ (([], some e), s')
        | ok reply ↦ ((optional_chunk reply.text, none), set_last_reply reply s')
      ]

  -- `except LLMProviderError` around the stream; the pieces so far have been spoken
  abbrev pub stream_failed : ℕ → List Text → Error → State W → (List Text × Option Error) × State W
  stream_failed turn_start spoken (Error.llm_provider_error why) s = (
    (spoken ++ fallback_message ∷ [], none),
    set_last_reply fallback_reply (record (with_history (take turn_start s.conv.history) s) {
      metrics = s.metrics ++ llm_errors_total ∷ [];
    }),
  )
  stream_failed turn_start spoken e s = ((spoken, some e), s)

  -- what follows a stream that ended
  abbrev pub stream_ended :
      List Text → Text × Text × Intent → State W → (List Text × Option Error) × State W
  stream_ended spoken (reply_text, trailing, intent) s = (
    (spoken ++ optional_chunk trailing, none),
    set_last_reply (reply_of intent reply_text) (
        with_history
          (trim_history s.conv.max_history_turns
            (s.conv.history ++ text_message Role.assistant reply_text ∷ []))
          s),
  )

  -- the loop over the deltas of one turn, and what follows it
  abbrev pub after_stream :
      ℕ → List Text × Option Error → State W → (List Text × Option Error) × State W
  after_stream turn_start (deltas, failure) s =
      let (outs, extractor) = feed_all fresh deltas in
      elim failure [
        | some e ↦ stream_failed turn_start (speakable outs) e s
        | none ↦ stream_ended (speakable outs) (finalize extractor).0 s
      ]

  -- one turn without tools
  unfoldable pub stream_turn : ℕ → State W → (List Text × Option Error) × State W
  stream_turn turn_start s =
      let (streamed, w) = p.generate_stream s.conv.history s.conv.system_prompt s.world in
      after_stream turn_start streamed
        (record s { world = w; requests = s.requests ++ s.conv.history ∷ [] })

  -- What is yielded, the exception that ended the generator, if one did, and the state after it
  -- has been consumed.
  unfoldable pub handle_utterance_stream : Text → State W → (List Text × Option Error) × State W
  handle_utterance_stream caller_text s = elim s.conv.tools [
    | some ts ↦ stream_with_tools caller_text s
    | none ↦
        if call_limit_reached p s
        then ((call_limit_message ∷ [], none), set_last_reply call_limit_reply s)
        else stream_turn (length s.conv.history) (open_turn caller_text s)
  ]
