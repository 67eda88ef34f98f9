-- ===== src/Services/Models.antt =====
-- A conversation (src/openvoice/agent/conversation.py) with the provider that src/openvoice/llm/factory.py builds.
mod Tests
use open_voice.Base.{ℕ, ◌≡◌, ◌≢◌, refl, sym, ◌∙◌, Option, none, some, List, [], ◌∷◌, All}
use open_voice.Base.Text.{Text, codes}
use open_voice.Base.Json.{Json, Fields}
use open_voice.Base.Result.{Error, Result, ok, err, then_ok}
use open_voice.Llm.{ToolCall, ToolDefinition, LlmMessage, LlmResponse}
use open_voice.Llm.Anthropic
use open_voice.Llm.Anthropic.Streaming
use open_voice.Llm.Openai.{
  RawCall, tool_call, parsed_arguments, parse_calls, calls_or_none, parse_tool_calls,
}
use open_voice.Llm.Openai.Generate
use open_voice.Reply.{AgentReply}
use open_voice.Config.Factories.{LlmConfig, anthropic_llm, openai_llm}
use open_voice.Conversation.{Providers, State}
use open_voice.Conversation.Loop.{handle_utterance}
use open_voice.Conversation.Loop.Requests.{RaisesOnlyLlmErrors, handle_utterance-ok}

-- The two SDKs, each built with the arguments of its provider, on the world that they act on; and `json`.
pub record Sdks (W : Type 0) : Type 0 where
  pub anthropic_create :
      LlmConfig
      → W
      → List Anthropic.WireMessage
      → Option Text
      → List ToolDefinition
      → Anthropic.SdkResult
  pub anthropic_enter : LlmConfig → W → List Anthropic.WireMessage → Option Text → Streaming.Entered
  pub openai_create : LlmConfig → W → Generate.Request → Generate.SdkResult Generate.Completion
  pub openai_stream :
      LlmConfig
      → W
      → Generate.Request
      → Generate.SdkResult (List Generate.Chunk × Option Generate.SdkError)
  -- the world after a call
  pub called : W → W
  pub dumps : Json → Text
  pub loads : Text → Option Json

module _ {W : Type 0} (sdks : Sdks W) where
  -- `generate` of the provider, as a conversation calls it
  abbrev pub generate_with :
      LlmConfig → List LlmMessage → Text → Option (List ToolDefinition) → W → Result LlmResponse
  generate_with (anthropic_llm key model timeout retries) history prompt tools w =
      Anthropic.generate (sdks.anthropic_create (anthropic_llm key model timeout retries) w) history
        (some prompt) tools
  generate_with (openai_llm key model timeout retries url) history prompt tools w =
      Generate.generate sdks.loads sdks.dumps
        (sdks.openai_create (openai_llm key model timeout retries url) w) history (some prompt)
        tools

  abbrev pub stream_with : LlmConfig → List LlmMessage → Text → W → List Text × Option Error
  stream_with (anthropic_llm key model timeout retries) history prompt w =
      Streaming.generate_stream (sdks.anthropic_enter (anthropic_llm key model timeout retries) w)
        history (some prompt)
  stream_with (openai_llm key model timeout retries url) history prompt w =
      Generate.generate_stream sdks.dumps
        (sdks.openai_stream (openai_llm key model timeout retries url) w) history (some prompt)

  -- a conversation's providers, with this language model
  abbrev pub with_model : LlmConfig → Providers W → Providers W
  with_model config p = record p {
    generate =
        λ history prompt tools w. (generate_with config history prompt tools w, sdks.called w);
    generate_stream = λ history prompt w. (stream_with config history prompt w, sdks.called w);
  }

  -- `json.loads` reads the arguments of a call as an object, or not at all.
  abbrev pub IsObjectOrNone : Option Json → Type 0
  IsObjectOrNone none = Unit
  IsObjectOrNone (some (Json.object fields)) = Unit
  IsObjectOrNone (some j) = ⊥

  abbrev pub HasArguments : Option (Text × Text) → Type 0
  HasArguments none = Unit
  HasArguments (some (name, arguments)) = IsObjectOrNone (sdks.loads arguments)

  abbrev pub CallsWithObjects : Option (List RawCall) → Type 0
  CallsWithObjects none = Unit
  CallsWithObjects (some raws) = All (λ (raw : RawCall). HasArguments raw.function) raws

  -- The SDKs raise nothing but their `APIError`, and a completion has a choice, and in it no call whose arguments are JSON
  -- but no object.
  pub record Behaves : Type 0 where
    pub anthropic_raises :
        (config : LlmConfig) (w : W) (messages : List Anthropic.WireMessage) (prompt : Option Text)
        (tools : List ToolDefinition) (e : Error)
        → sdks.anthropic_create config w messages prompt tools
          ≢ Anthropic.failed (Anthropic.other e)
    pub openai_raises :
        (config : LlmConfig) (w : W) (request : Generate.Request) (e : Error)
        → sdks.openai_create config w request ≢ Generate.failed (Generate.other e)
    pub openai_answers :
        (config : LlmConfig) (w : W) (request : Generate.Request) (c : Generate.Completion)
        → sdks.openai_create config w request ≡ Generate.answer c
        → (c.choices ≢ []) × All (λ (x : Generate.Choice). CallsWithObjects x.tool_calls) c.choices

  abbrev OnlyLlmErrors : Result LlmResponse → Type 0
  OnlyLlmErrors r = (e : Error) → r ≡ err e → (why : Text) × (e ≡ Error.llm_provider_error why)

  raised-OnlyLlmErrors : (why : Text) → OnlyLlmErrors (err (Error.llm_provider_error why))
  raised-OnlyLlmErrors why e h = (why, cc)

  anthropic-OnlyLlmErrors :
      (r : Anthropic.SdkResult)
      → ((e : Error) → r ≢ Anthropic.failed (Anthropic.other e))
      → OnlyLlmErrors (Anthropic.generated r)
  anthropic-OnlyLlmErrors (Anthropic.answer m) only e h = cc
  anthropic-OnlyLlmErrors (Anthropic.failed (Anthropic.api_error why)) only e h =
      raised-OnlyLlmErrors _ e h
  anthropic-OnlyLlmErrors (Anthropic.failed (Anthropic.other x)) only e h = absurd (only x refl)

  -- a call with such arguments is read
  tool_call_lem :
      (id name arguments : Text) (j : Option Json)
      → sdks.loads arguments ≡ j
      → IsObjectOrNone j
      → (call : ToolCall) × (tool_call sdks.loads id name (parsed_arguments sdks.loads arguments)
          ≡ ok call)
  tool_call_lem id name arguments none h is = (
    record {
      id = id;
      name = name;
      arguments = Fields.field (codes "_parse_error") (Json.string arguments) Fields.end;
    },
    rw (tool_call, h) refl,
  )
  tool_call_lem id name arguments (some (Json.object fields)) h is =
      (record { id = id; name = name; arguments = fields }, rw (tool_call, h) refl)
  tool_call_lem id name arguments (some Json.null) h is = absurd is
  tool_call_lem id name arguments (some (Json.boolean b)) h is = absurd is
  tool_call_lem id name arguments (some (Json.number n)) h is = absurd is
  tool_call_lem id name arguments (some (Json.string t)) h is = absurd is
  tool_call_lem id name arguments (some (Json.array items)) h is = absurd is

  parse_calls_lem :
      (raws : List RawCall)
      → All (λ (raw : RawCall). HasArguments raw.function) raws
      → (calls : List ToolCall) × (parse_calls sdks.loads raws ≡ ok calls)
  unfolding parse_calls
  parse_calls_lem [] h = ([], refl)
  parse_calls_lem (raw ∷ raws) (h, hs) =
      let (calls, rest) = parse_calls_lem raws hs in with_function raw.function refl h calls rest
    where
      with_function :
          (f : Option (Text × Text))
          → raw.function ≡ f
          → HasArguments f
          → (calls : List ToolCall) → parse_calls sdks.loads raws ≡ ok calls
          → (read : List ToolCall) × (parse_calls sdks.loads (raw ∷ raws) ≡ ok read)
      with_function none is h calls rest = (calls, rw is rest)
      with_function (some (name, arguments)) is h calls rest =
          let (call, read) = tool_call_lem raw.id name arguments (sdks.loads arguments) refl h in
          (call ∷ calls, rw (is, read, rest) refl)

  answered-OnlyLlmErrors : (r : Result LlmResponse) (x : LlmResponse) → r ≡ ok x → OnlyLlmErrors r
  answered-OnlyLlmErrors r x h e k = cc

  read-OnlyLlmErrors :
      (c : Generate.Completion) (choice : Generate.Choice) (raws : Option (List RawCall))
      → CallsWithObjects raws
      → OnlyLlmErrors (
          then_ok
            (parse_tool_calls sdks.loads raws)
            λ calls. ok (Generate.response_with sdks.loads c choice calls))
  read-OnlyLlmErrors c choice none h e k = cc
  read-OnlyLlmErrors c choice (some raws) h e k =
      let (calls, is) = parse_calls_lem raws h in
      answered-OnlyLlmErrors _
        (Generate.response_with sdks.loads c choice (calls_or_none sdks.loads calls)) (rw is refl) e
        k

  choice-OnlyLlmErrors :
      (c : Generate.Completion) (choices : List Generate.Choice)
      → choices ≢ []
      → All (λ (x : Generate.Choice). CallsWithObjects x.tool_calls) choices
      → OnlyLlmErrors (Generate.first_choice sdks.loads c choices)
  choice-OnlyLlmErrors c [] ne h e k = absurd (ne refl)
  choice-OnlyLlmErrors c (choice ∷ choices) ne h e k =
      read-OnlyLlmErrors c choice choice.tool_calls h.0 e k

  openai-OnlyLlmErrors :
      (r : Generate.SdkResult Generate.Completion)
      → ((e : Error) → r ≢ Generate.failed (Generate.other e))
      → ((c : Generate.Completion)
          → r ≡ Generate.answer c
          → (c.choices ≢ [])
            × All (λ (x : Generate.Choice). CallsWithObjects x.tool_calls) c.choices)
      → OnlyLlmErrors (Generate.read_completion sdks.loads r)
  openai-OnlyLlmErrors (Generate.answer c) only answers e h =
      let (ne, objects) = answers c refl in choice-OnlyLlmErrors c c.choices ne objects e h
  openai-OnlyLlmErrors (Generate.failed (Generate.api_error why)) only answers e h =
      raised-OnlyLlmErrors _ e h
  openai-OnlyLlmErrors (Generate.failed (Generate.other x)) only answers e h = absurd (only x refl)

  model-RaisesOnlyLlmErrors :
      (config : LlmConfig) (p : Providers W) → Behaves → RaisesOnlyLlmErrors (with_model config p)
  unfolding Anthropic.generate Generate.generate
  model-RaisesOnlyLlmErrors (anthropic_llm key model timeout retries) p b history prompt none w =
      anthropic-OnlyLlmErrors _
        (b.anthropic_raises (anthropic_llm key model timeout retries) w _ _ _)
  model-RaisesOnlyLlmErrors (anthropic_llm key model timeout retries) p b history prompt
        (some tools) w =
      anthropic-OnlyLlmErrors _
        (b.anthropic_raises (anthropic_llm key model timeout retries) w _ _ _)
  model-RaisesOnlyLlmErrors (openai_llm key model timeout retries url) p b history prompt tools w =
      openai-OnlyLlmErrors _ (b.openai_raises (openai_llm key model timeout retries url) w _)
        (b.openai_answers (openai_llm key model timeout retries url) w _)

  -- With the provider of any configuration, on SDKs that raise nothing but their `APIError` and complete with at least
  -- one choice, without a tool call whose arguments are JSON but no object: every utterance gets a reply, whatever the tools do.
  pub model_replies :
      (config : LlmConfig) (p : Providers W) (caller_text : Text) (s : State W)
      → Behaves
      → (a : AgentReply) × ((handle_utterance (with_model config p) caller_text s).0 ≡ ok a)
  model_replies config p caller_text s b =
      handle_utterance-ok (with_model config p) (model-RaisesOnlyLlmErrors config p b) caller_text s
