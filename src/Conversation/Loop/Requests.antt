-- ===== src/Conversation/Loop/Requests.antt =====
-- What `handle_utterance` of src/openvoice/agent/conversation.py asks the provider for, and that it
-- answers whatever the provider does.
use open_voice.Base.{
  ℕ, zero, suc, ◌≤◌, ◌≡◌, refl, sym, ap, ◌∙◌, ◌⊎◌, inl, inr, false, List, [], ◌∷◌, ◌++◌, append-nil,
  append_assoc, arith, Bool-cases, length, is_empty, All,
}
use open_voice.Base.Text.{Text}
use open_voice.Base.Result.{Error, Result, ok, err}
use open_voice.Llm.{Role, text_message, LlmMessage, LlmResponse, calls_of}
use open_voice.Reply.{AgentReply, parse_structured_reply}
use open_voice.Conversation.{
  Providers, State, open_turn, fallback_reply, call_limit_reply, reply_of,
}
use open_voice.Conversation.Loop.{
  tool_round, final_reply, generate_failed, call_generate, on_response, tool_loop,
  call_limit_reached, handle_utterance,
}
use open_voice.Conversation.Loop.Rounds.{
  round_of, requests-tool_round, on_response_final, on_response_round,
}
use open_voice.Conversation.Loop.Turns.{Open, tool_round-Open}
use open_voice.Conversation.History.{Round, Turn, opening, transcript}

-- A request that a wire format accepts: whole turns, then the open turn with whole rounds.
abbrev pub IsRequest : List Turn → Text → List LlmMessage → Type 0
IsRequest ts caller_text h = (rs : List Round) × (h ≡ transcript ts ++ opening caller_text rs)

-- At most `k` requests were made since `before`, each of that form.
abbrev pub Asks : List Turn → Text → ℕ → List (List LlmMessage) → List (List LlmMessage) → Type 0
Asks ts caller_text k before after =
    (asked : List (List LlmMessage)) × (after ≡ before ++ asked)
    × (length asked ≤ k)
    × All (IsRequest ts caller_text) asked

module _ {W : Type 0} (p : Providers W) where
  requests-generate_failed :
      (turn_start : ℕ) (e : Error) (s : State W)
      → (generate_failed p turn_start e s).1.requests ≡ s.requests
  requests-generate_failed turn_start (Error.llm_provider_error why) s = refl
  requests-generate_failed turn_start (Error.booking_error why) s = refl
  requests-generate_failed turn_start e s = refl

  requests-final_reply :
      (response : LlmResponse) (s : State W) → (final_reply p response s).1.requests ≡ s.requests
  unfolding final_reply
  requests-final_reply response s = refl

module _ {W : Type 0} (p : Providers W) (ts : List Turn) (caller_text : Text) where
  Asks-none :
      (k : ℕ) (before after : List (List LlmMessage))
      → after ≡ before
      → Asks ts caller_text k before after
  Asks-none k before after h = ([], h ∙ sym (append-nil before), omega arith, tt)

  on_response-Asks :
      (k start : ℕ) (again : State W → Result AgentReply × State W)
      → ((rs : List Round) (s : State W)
          → Open p ts caller_text s.conv.max_history_turns rs s
          → Asks ts caller_text k s.requests (again s).1.requests)
      → (r : Result LlmResponse) (rs : List Round) (s : State W)
      → Open p ts caller_text s.conv.max_history_turns rs s
      → Asks ts caller_text k s.requests (on_response p again start r s).1.requests
  unfolding on_response
  on_response-Asks k start again ih (err e) rs s o =
      Asks-none k s.requests _ (requests-generate_failed p start e s)
  on_response-Asks k start again ih (ok response) rs s o =
      elim (Bool-cases (is_empty (calls_of response.tool_calls))) [
        | inl e ↦ Asks-none k s.requests _ (
            ap (λ x. x.1.requests) (on_response_final p again start response s e)
            ∙ requests-final_reply p response s)
        | inr e ↦
            let round = round_of p response s in
            let still =
              tool_round-Open p ts caller_text s.conv.max_history_turns response rs s e o in
            let (asked, more, n, each) =
              ih (rs ++ round ∷ []) (tool_round p response s) (still.0, refl) in
            (
              asked,
              ap (λ x. x.1.requests) (on_response_round p again start response s e)
                  ∙ more
                  ∙ ap (λ b. b ++ asked) (requests-tool_round p response s),
              n,
              each,
            )
      ]

  tool_loop-Asks :
      (start left : ℕ) (rs : List Round) (s : State W)
      → Open p ts caller_text s.conv.max_history_turns rs s
      → Asks ts caller_text left s.requests (tool_loop p start left s).1.requests
  unfolding tool_loop
  tool_loop-Asks start zero rs s o = Asks-none 0 s.requests _ refl
  tool_loop-Asks start (suc left) rs s o =
      let (asked, e, n, all) =
        on_response-Asks left start (tool_loop p start left) (tool_loop-Asks start left)
          (call_generate p s).0 rs (call_generate p s).1 o in
      (
        s.conv.history ∷ asked,
        e ∙ append_assoc s.requests (s.conv.history ∷ []) asked,
        omega arith,
        ((rs, o.0), all),
      )

  -- From a history of whole turns, an utterance makes at most `max_tool_iterations` requests, and none
  -- once the limit of the call is reached. Each request is whole turns followed by the
  -- open turn, in which every tool call is answered.
  pub handle_utterance-Asks :
      (s : State W)
      → s.conv.history ≡ transcript ts
      → Asks ts caller_text s.conv.max_tool_iterations s.requests
          (handle_utterance p caller_text s).1.requests
        × ((call_limit_reached p s ≡ false)
            ⊎ ((handle_utterance p caller_text s).1.requests ≡ s.requests))
  unfolding handle_utterance
  handle_utterance-Asks s h = elim (Bool-cases (call_limit_reached p s)) [
    | inl limit ↦
        (rw limit (Asks-none s.conv.max_tool_iterations s.requests _ refl), inr (rw limit))
    | inr free ↦ (
      rw free (
          tool_loop-Asks (length s.conv.history) s.conv.max_tool_iterations [] _
            (ap (λ x. x ++ text_message Role.user caller_text ∷ []) h, refl)),
      inl free,
    )
  ]

-- The contract of `BaseLLMProvider.generate`: what it raises is `LLMProviderError`.
abbrev pub RaisesOnlyLlmErrors : {W : Type 0} → Providers W → Type 0
RaisesOnlyLlmErrors p =
    (history : _) (prompt : _) (tools : _) (w : _) (e : Error)
    → (p.generate history prompt tools w).0 ≡ err e
    → (why : Text) × (e ≡ Error.llm_provider_error why)

pub final_reply_ok :
    {W : Type 0} (p : Providers W) (response : LlmResponse) (s : State W)
    → (final_reply p response s).0
      ≡ (let (intent, text) = parse_structured_reply response.content in ok (reply_of intent text))
unfolding final_reply
final_reply_ok p response s = refl

module _ {W : Type 0} (p : Providers W) (contract : RaisesOnlyLlmErrors p) where
  on_response-ok :
      (start : ℕ) (again : State W → Result AgentReply × State W)
      → ((s : State W) → (a : AgentReply) × ((again s).0 ≡ ok a))
      → (r : Result LlmResponse) (s : State W)
      → ((e : Error) → r ≡ err e → (why : Text) × (e ≡ Error.llm_provider_error why))
      → (a : AgentReply) × ((on_response p again start r s).0 ≡ ok a)
  unfolding on_response
  on_response-ok start again ih (err e) s c =
      let (why, same) = c e refl in (fallback_reply, ap (λ x. (generate_failed p start x s).0) same)
  on_response-ok start again ih (ok response) s c =
      elim (Bool-cases (is_empty (calls_of response.tool_calls))) [
        | inl e ↦
            let (intent, text) = parse_structured_reply response.content in
            (
              reply_of intent text,
              ap (λ x. x.0) (on_response_final p again start response s e)
                  ∙ final_reply_ok p response s,
            )
        | inr e ↦
            let (a, h) = ih (tool_round p response s) in
            (a, ap (λ x. x.0) (on_response_round p again start response s e) ∙ h)
      ]

  tool_loop-ok :
      (start left : ℕ) (s : State W) → (a : AgentReply) × ((tool_loop p start left s).0 ≡ ok a)
  unfolding tool_loop
  tool_loop-ok start zero s = (fallback_reply, refl)
  tool_loop-ok start (suc left) s =
      on_response-ok start (tool_loop p start left) (tool_loop-ok start left) (call_generate p s).0
        (call_generate p s).1 (contract s.conv.history s.conv.system_prompt s.conv.tools s.world)

  -- With a provider that raises only `LLMProviderError`, every utterance gets a reply,
  -- whatever the tools do.
  pub handle_utterance-ok :
      (caller_text : Text) (s : State W)
      → (a : AgentReply) × ((handle_utterance p caller_text s).0 ≡ ok a)
  unfolding handle_utterance
  handle_utterance-ok caller_text s = elim (Bool-cases (call_limit_reached p s)) [
    | inl limit ↦ (call_limit_reply, rw limit)
    | inr free ↦
        let (a, h) =
          tool_loop-ok (length s.conv.history) s.conv.max_tool_iterations
            (open_turn caller_text s) in
        (a, rw free h)
  ]
