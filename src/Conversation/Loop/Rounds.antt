-- ===== src/Conversation/Loop/Rounds.antt =====
-- The tool rounds of `handle_utterance` (src/openvoice/agent/conversation.py): every call that a
-- response asks for is answered, in order.
use open_voice.Base.{
  ℕ, ◌≡◌, refl, sym, ap, ◌∙◌, true, false, Option, some, none, List, [], ◌∷◌, ◌++◌, map, append-nil,
  append_assoc, is_empty,
}
use open_voice.Base.Result.{Result, ok}
use open_voice.Llm.{Role, ToolCall, LlmResponse, calls_of}
use open_voice.Reply.{AgentReply}
use open_voice.Conversation.{Providers, State, append_message, tool_message}
use open_voice.Conversation.Loop.{execute_tool, execute_tools, tool_round, final_reply, on_response}
use open_voice.Conversation.History.{Answered, Round, answer_message, round_messages}

calls_some : (o : Option (List ToolCall)) → is_empty (calls_of o) ≡ false → o ≡ some (calls_of o)
calls_some none e = cc
calls_some (some calls) e = refl

module _ {W : Type 0} (p : Providers W) where
  -- The answers that `execute_tools` records.
  answers : List ToolCall → State W → List Answered
  answers [] s = []
  answers (call ∷ calls) s =
      let (result, s') = execute_tool p call s in
      record { call = call; result = result }
      ∷ answers calls (append_message (tool_message call result) s')

  calls-answers :
      (calls : List ToolCall) (s : State W) → map (λ a. a.call) (answers calls s) ≡ calls
  unfolding answers
  calls-answers [] s = refl
  calls-answers (call ∷ calls) s = ap (λ cs. call ∷ cs) (calls-answers calls _)

  -- Every call is answered by one message, in order; nothing else of the conversation changes.
  conv-execute_tools :
      (calls : List ToolCall) (s : State W)
      → (execute_tools p calls s).conv
        ≡ record (s.conv) { history = s.conv.history ++ map answer_message (answers calls s) }
  unfolding answers execute_tools execute_tool
  conv-execute_tools [] s =
      ap (λ h. record (s.conv) { history = h }) (sym (append-nil s.conv.history))
  conv-execute_tools (call ∷ calls) s =
      conv-execute_tools calls _
      ∙ ap (λ h. record (s.conv) { history = h }) (append_assoc s.conv.history (_ ∷ []) _)

  requests-execute_tools :
      (calls : List ToolCall) (s : State W) → (execute_tools p calls s).requests ≡ s.requests
  unfolding execute_tools execute_tool
  requests-execute_tools [] s = refl
  requests-execute_tools (call ∷ calls) s = requests-execute_tools calls _

  -- the round that a response adds
  pub round_of : LlmResponse → State W → Round
  round_of response s = record {
    content = response.content;
    answers = answers (calls_of response.tool_calls) (
        append_message
          (record {
            role = Role.assistant;
            content = response.content;
            tool_calls = response.tool_calls;
            tool_call_id = none;
            tool_call_is_error = false;
          })
          s);
  }

  pub on_response_final :
      (again : State W → Result AgentReply × State W) (turn_start : ℕ) (response : LlmResponse)
      (s : State W)
      → is_empty (calls_of response.tool_calls) ≡ true
      → on_response p again turn_start (ok response) s ≡ final_reply p response s
  unfolding on_response
  on_response_final again turn_start response s e = rw (e, on_response)

  pub on_response_round :
      (again : State W → Result AgentReply × State W) (turn_start : ℕ) (response : LlmResponse)
      (s : State W)
      → is_empty (calls_of response.tool_calls) ≡ false
      → on_response p again turn_start (ok response) s ≡ again (tool_round p response s)
  unfolding on_response
  on_response_round again turn_start response s e = rw (e, on_response)

  pub conv-tool_round :
      (response : LlmResponse) (s : State W)
      → is_empty (calls_of response.tool_calls) ≡ false
      → (tool_round p response s).conv
        ≡ record (s.conv) { history = s.conv.history ++ round_messages (round_of response s) }
  unfolding tool_round round_of
  conv-tool_round response s e =
      conv-execute_tools (calls_of response.tool_calls) _
      ∙ ap (λ h. record (s.conv) { history = h }) (append_assoc s.conv.history (_ ∷ []) _)
      ∙ ap
          (λ calls. record (s.conv) {
            history =
                s.conv.history
                ++ record {
                  role = Role.assistant;
                  content = response.content;
                  tool_calls = calls;
                  tool_call_id = none;
                  tool_call_is_error = false;
                }
                  ∷ map answer_message (round_of response s).answers;
          })
          (calls_some response.tool_calls e
            ∙ ap some (sym (calls-answers (calls_of response.tool_calls) _)))

  pub requests-tool_round :
      (response : LlmResponse) (s : State W) → (tool_round p response s).requests ≡ s.requests
  unfolding tool_round
  requests-tool_round response s = requests-execute_tools (calls_of response.tool_calls) _
