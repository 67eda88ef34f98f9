-- ===== src/Llm/Anthropic/Streaming.antt =====
-- `generate_stream` of src/openvoice/llm/providers/anthropic.py. The SDK's stream, and the retried call that enters it, are
-- parameters.
use open_voice.Base.{Option, some, List, [], ◌++◌}
use mathlib.Core.Option
use open_voice.Base.Text.{Text, codes}
use open_voice.Base.Result.{Error}
use open_voice.Llm.{LlmMessage}
use open_voice.Llm.Anthropic.{WireMessage, SdkError, api_error, other, to_anthropic_messages}

-- What entering the stream does: it raises, or there is a stream of texts and what broke it off.
pub data Entered : Type 0 where
  refused : SdkError → Entered
  stream : List Text → Option SdkError → Entered

abbrev pub texts_failed : SdkError → Error
texts_failed (api_error why) =
    Error.llm_provider_error (codes "Anthropic streaming call failed: " ++ why)
texts_failed (other e) = e

abbrev pub streamed : Entered → List Text × Option Error
streamed (refused e) = ([], some (texts_failed e))
streamed (stream texts broken) = (texts, Option.map texts_failed broken)

-- `generate_stream`: the texts that are yielded, and the exception that ended it, if one did
unfoldable pub generate_stream :
    (List WireMessage → Option Text → Entered)
    → List LlmMessage
    → Option Text
    → List Text × Option Error
generate_stream enter messages system_prompt =
    streamed (enter (to_anthropic_messages messages) system_prompt)
