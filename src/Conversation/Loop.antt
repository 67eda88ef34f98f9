-- ===== src/Conversation/Loop.antt =====
-- `handle_utterance` of src/openvoice/agent/conversation.py, and what it calls.
pub mod Rounds
pub mod Stable
pub mod Limit
pub mod Turns
pub mod Requests
use open_voice.Base.{
  ℕ, zero, suc, ◌+◌, ◌-◌, ◌≡◌, Bool, true, false, ◌||◌, Option, none, some, List, [], ◌∷◌, ◌++◌,
  if◌then◌else◌, leb, ltb, ◌==◌, length, take, drop, is_empty,
}
use open_voice.Base.Text.{Text, codes}
use open_voice.Base.Result.{Error, Result, ok, err}
use open_voice.Llm.{Role, ToolCall, LlmMessage, LlmResponse, text_message, calls_of}
use open_voice.Reply.{Intent, AgentReply, fresh, feed_all, finalize, parse_structured_reply}
use open_voice.Conversation.{
  Providers, State, Metric, llm_errors_total, tool_calls_total, trim_history, fallback_reply,
  call_limit_reply, reply_of, fallback_message, call_limit_message, tool_message, with_history,
  append_message, open_turn, set_last_reply,
}

module _ {W : Type 0} (p : Providers W) where
  -- `_call_limit_reached`
  unfoldable pub call_limit_reached : State W → Bool
  call_limit_reached s =
      elim s.conv.max_conversation_turns [ none ↦ false | some limit ↦ leb limit s.conv.turn_count ]
      || elim s.conv.max_call_duration [
        | none ↦ false
        | some limit ↦ leb (s.conv.call_started_at + limit) (p.now s.world)
      ]

  -- the result, or the message for an executor that is missing or that raised
  unfoldable pub run_executor : ToolCall → W → (Text × Bool) × W
  run_executor call w = elim p.tool_executor [
    | none ↦ ((codes "Tool '" ++ (call.name ++ codes "' is not available."), true), w)
    | some run ↦
        let (r, w') = run call w in
        elim r [
          | ok answer ↦ (answer, w')
          | err e ↦ ((codes "An internal error occurred while executing this action.", true), w')
        ]
  ]

  -- `_execute_tool`
  unfoldable pub execute_tool : ToolCall → State W → (Text × Bool) × State W
  execute_tool call s =
      let (result, w) = run_executor call s.world in
      (
        result,
        record s { world = w; metrics = s.metrics ++ tool_calls_total call.name result.1 ∷ [] },
      )

  -- the loop over `response.tool_calls`
  unfoldable pub execute_tools : List ToolCall → State W → State W
  execute_tools [] s = s
  execute_tools (call ∷ calls) s =
      let (result, s') = execute_tool call s in
      execute_tools calls (append_message (tool_message call result) s')

  -- a response that asks for tools
  unfoldable pub tool_round : LlmResponse → State W → State W
  tool_round response s = execute_tools (calls_of response.tool_calls) (
      append_message
        (record {
          role = Role.assistant;
          content = response.content;
          tool_calls = response.tool_calls;
          tool_call_id = none;
          tool_call_is_error = false;
        })
        s)

  -- the reply that ends the turn
  unfoldable pub final_reply : LlmResponse → State W → Result AgentReply × State W
  final_reply response s =
      let (intent, reply_text) = parse_structured_reply response.content in
      (
        ok (reply_of intent reply_text),
        with_history
            (trim_history s.conv.max_history_turns
              (s.conv.history ++ text_message Role.assistant reply_text ∷ []))
            s,
      )

  -- `except LLMProviderError`; any other exception passes
  abbrev pub generate_failed : ℕ → Error → State W → Result AgentReply × State W
  generate_failed turn_start (Error.llm_provider_error why) s = (
    ok fallback_reply,
    record (with_history (take turn_start s.conv.history) s) {
      metrics = s.metrics ++ llm_errors_total ∷ [];
    },
  )
  generate_failed turn_start e s = (err e, s)

  -- one call of `generate` on the history so far
  abbrev pub call_generate : State W → Result LlmResponse × State W
  call_generate s =
      let (r, w) = p.generate s.conv.history s.conv.system_prompt s.conv.tools s.world in
      (r, record s { world = w; requests = s.requests ++ s.conv.history ∷ [] })

  -- the body of the loop behind the call: `again` is the next iteration
  unfoldable pub on_response :
      (State W → Result AgentReply × State W)
      → ℕ
      → Result LlmResponse
      → State W
      → Result AgentReply × State W
  on_response again turn_start (err e) s = generate_failed turn_start e s
  on_response again turn_start (ok response) s = elim (is_empty (calls_of response.tool_calls)) [
    | false ↦ again (tool_round response s)
    | true ↦ final_reply response s
  ]

  -- `for iteration in range(max_tool_iterations)`, on the iterations that are left
  unfoldable pub tool_loop : ℕ → ℕ → State W → Result AgentReply × State W
  tool_loop turn_start zero s = (ok fallback_reply, with_history (take turn_start s.conv.history) s)
  tool_loop turn_start (suc left) s =
      let (r, s') = call_generate s in on_response (tool_loop turn_start left) turn_start r s'

  unfoldable pub handle_utterance : Text → State W → Result AgentReply × State W
  handle_utterance caller_text s =
      if call_limit_reached s
      then (ok call_limit_reply, s)
      else tool_loop (length s.conv.history) s.conv.max_tool_iterations (open_turn caller_text s)
