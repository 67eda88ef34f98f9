-- ===== src/Conversation/Loop/Stable.antt =====
-- Invariants of `handle_utterance` (src/openvoice/agent/conversation.py): what the calls of the provider, the
-- calls of the tools and the bookkeeping keep, a whole utterance keeps.
use open_voice.Base.{
  ℕ, zero, suc, ◌≡◌, sym, subst, inl, inr, false, List, [], ◌∷◌, Bool-cases, length, is_empty,
}
use open_voice.Base.Text.{Text}
use open_voice.Base.Result.{Error, Result, ok, err}
use open_voice.Llm.{ToolCall, LlmMessage, LlmResponse, calls_of}
use open_voice.Reply.{AgentReply}
use open_voice.Conversation.{Providers, State, Metric, with_history, open_turn}
use open_voice.Conversation.Loop.{
  call_limit_reached, run_executor, execute_tool, execute_tools, tool_round, final_reply,
  generate_failed, call_generate, on_response, tool_loop, handle_utterance,
}
use open_voice.Conversation.Loop.Rounds.{on_response_final, on_response_round}

-- What holds after each primitive step if it held before.
pub record Stable {W : Type 0} (p : Providers W) (P : State W → Type 0) : Type 0 where
  pub on_history : (h : List LlmMessage) (s : State W) → P s → P (with_history h s)
  pub on_metrics : (m : List Metric) (s : State W) → P s → P (record s { metrics = m })
  pub on_generate : (s : State W) → P s → P (call_generate p s).1
  pub on_tool :
      (call : ToolCall) (s : State W)
      → P s
      → P (record s { world = (run_executor p call s.world).1 })

module _ {W : Type 0} (p : Providers W) (P : State W → Type 0) (stable : Stable p P) where
  execute_tools-keeps : (calls : List ToolCall) (s : State W) → P s → P (execute_tools p calls s)
  unfolding execute_tools execute_tool
  execute_tools-keeps [] s h = h
  execute_tools-keeps (call ∷ calls) s h =
      execute_tools-keeps calls _
        (stable.on_history _ _ (stable.on_metrics _ _ (stable.on_tool call s h)))

  tool_round-keeps : (response : LlmResponse) (s : State W) → P s → P (tool_round p response s)
  unfolding tool_round
  tool_round-keeps response s h =
      execute_tools-keeps (calls_of response.tool_calls) _ (stable.on_history _ s h)

  final_reply-keeps : (response : LlmResponse) (s : State W) → P s → P (final_reply p response s).1
  unfolding final_reply
  final_reply-keeps response s h = stable.on_history _ s h

  generate_failed-keeps :
      (start : ℕ) (e : Error) (s : State W) → P s → P (generate_failed p start e s).1
  generate_failed-keeps start (Error.llm_provider_error why) s h =
      stable.on_metrics _ _ (stable.on_history _ s h)
  generate_failed-keeps start (Error.booking_error why) s h = h
  generate_failed-keeps start e s h = h

  on_response-keeps :
      (again : State W → Result AgentReply × State W) (start : ℕ)
      → ((s : State W) → P s → P (again s).1)
      → (r : Result LlmResponse) (s : State W) → P s
      → P (on_response p again start r s).1
  unfolding on_response
  on_response-keeps again start ih (err e) s h = generate_failed-keeps start e s h
  on_response-keeps again start ih (ok response) s h =
      elim (Bool-cases (is_empty (calls_of response.tool_calls))) [
        | inl e ↦
            subst (λ x. P x.1) (sym (on_response_final p again start response s e))
              (final_reply-keeps response s h)
        | inr e ↦
            subst (λ x. P x.1) (sym (on_response_round p again start response s e))
              (ih (tool_round p response s) (tool_round-keeps response s h))
      ]

  tool_loop-keeps : (start left : ℕ) (s : State W) → P s → P (tool_loop p start left s).1
  unfolding tool_loop
  tool_loop-keeps start zero s h = stable.on_history _ s h
  tool_loop-keeps start (suc left) s h =
      on_response-keeps (tool_loop p start left) start (tool_loop-keeps start left)
        (call_generate p s).0 (call_generate p s).1 (stable.on_generate s h)

  -- below the limit of the call: from the opened turn on
  pub handle_utterance_open :
      (caller_text : Text) (s : State W)
      → call_limit_reached p s ≡ false
      → P (open_turn caller_text s)
      → P (handle_utterance p caller_text s).1
  unfolding handle_utterance
  handle_utterance_open caller_text s free h =
      rw (free, handle_utterance)
        (tool_loop-keeps (length s.conv.history) s.conv.max_tool_iterations
          (open_turn caller_text s) h)

  -- in either case
  pub handle_utterance-keeps :
      (caller_text : Text) (s : State W)
      → P s
      → P (open_turn caller_text s)
      → P (handle_utterance p caller_text s).1
  unfolding handle_utterance
  handle_utterance-keeps caller_text s h k = elim (Bool-cases (call_limit_reached p s)) [
    | inl limit ↦ rw (limit, handle_utterance) h
    | inr free ↦ handle_utterance_open caller_text s free k
  ]
