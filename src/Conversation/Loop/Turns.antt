-- ===== src/Conversation/Loop/Turns.antt =====
-- What `handle_utterance` of src/openvoice/agent/conversation.py does to the history.
use open_voice.Base.{
  ℕ, zero, suc, ◌≡◌, ◌≢◌, refl, sym, ap, ap₂, subst, ◌∙◌, ◌⊎◌, inl, inr, false, List, [], ◌∷◌, ◌++◌,
  append_assoc, arith, Bool-cases, length, take, is_empty,
}
use open_voice.Base.Text.{Text}
use open_voice.Base.Result.{Error, Result, ok, err}
use open_voice.Llm.{Role, LlmMessage, LlmResponse, text_message, calls_of}
use open_voice.Reply.{AgentReply, parse_structured_reply}
use open_voice.Conversation.{Providers, State, trim_history, fallback_reply, call_limit_reply}
use open_voice.Conversation.Loop.{
  tool_round, final_reply, generate_failed, call_generate, on_response, tool_loop,
  call_limit_reached, handle_utterance,
}
use open_voice.Conversation.History.{
  Round, Turn, round_messages, opening, transcript, transcript-append_one, opening-append_one,
}
use open_voice.Conversation.Loop.Rounds.{
  round_of, conv-tool_round, on_response_final, on_response_round,
}

-- How a turn that began after the turns `ts` has ended: with the fallback and the history as it was,
-- or with a reply that closes the turn, after which the history is trimmed; what is raised is
-- no `LLMProviderError`.
abbrev pub Settles : {W : Type 0} → List Turn → Text → ℕ → Result AgentReply × State W → Type 0
Settles ts caller_text n (ok reply, s) =
    ((reply ≡ fallback_reply) × (s.conv.history ≡ transcript ts))
    ⊎ ((t : Turn) × (t.caller_text ≡ caller_text)
        × (reply.text ≡ t.reply)
        × (s.conv.history ≡ trim_history n (transcript (ts ++ t ∷ []))))
Settles ts caller_text n (err e, s) = (why : Text) → e ≢ Error.llm_provider_error why

pub take-append_self : (xs ys : List LlmMessage) → take (length xs) (xs ++ ys) ≡ xs
take-append_self [] ys = refl
take-append_self (x ∷ xs) ys = ap (λ t. x ∷ t) (take-append_self xs ys)

module _ {W : Type 0} (p : Providers W) (ts : List Turn) (caller_text : Text) (n : ℕ) where
  -- The turn is open: it has had the rounds `rs`.
  abbrev pub Open : List Round → State W → Type 0
  Open rs s =
      (s.conv.history ≡ transcript ts ++ opening caller_text rs) × (s.conv.max_history_turns ≡ n)

  generate_failed-Settles :
      (e : Error) (rs : List Round) (s : State W)
      → Open rs s
      → Settles ts caller_text n (generate_failed p (length (transcript ts)) e s)
  generate_failed-Settles (Error.llm_provider_error why) rs s o = inl (
    refl,
    ap (take (length (transcript ts))) o.0
        ∙ take-append_self (transcript ts) (opening caller_text rs),
  )
  generate_failed-Settles (Error.booking_error why) rs s o = λ w. ground arith
  generate_failed-Settles e rs s o = λ w. ground arith

  final_reply-Settles :
      (response : LlmResponse) (rs : List Round) (s : State W)
      → Open rs s
      → Settles ts caller_text n (final_reply p response s)
  unfolding final_reply
  final_reply-Settles response rs s o =
      let reply = (parse_structured_reply response.content).1 in
      let t : Turn = record { caller_text = caller_text; rounds = rs; reply = reply } in
      inr (
        t,
        refl,
        refl,
        ap₂ trim_history o.1 (
            ap (λ h. h ++ text_message Role.assistant reply ∷ []) o.0
            ∙ append_assoc (transcript ts) (opening caller_text rs)
                (text_message Role.assistant reply ∷ [])
            ∙ sym (transcript-append_one ts t)),
      )

  pub tool_round-Open :
      (response : LlmResponse) (rs : List Round) (s : State W)
      → is_empty (calls_of response.tool_calls) ≡ false
      → Open rs s
      → Open (rs ++ round_of p response s ∷ []) (tool_round p response s)
  tool_round-Open response rs s e o =
      let r = round_of p response s in
      let same = conv-tool_round p response s e in
      (
        ap (λ c. c.history) same
            ∙ ap (λ h. h ++ round_messages r) o.0
            ∙ append_assoc (transcript ts) (opening caller_text rs) (round_messages r)
            ∙ ap (λ x. transcript ts ++ x) (sym (opening-append_one caller_text rs r)),
        ap (λ c. c.max_history_turns) same ∙ o.1,
      )

  on_response-Settles :
      (again : State W → Result AgentReply × State W)
      → ((rs : List Round) (s : State W) → Open rs s → Settles ts caller_text n (again s))
      → (r : Result LlmResponse) (rs : List Round) (s : State W) → Open rs s
      → Settles ts caller_text n (on_response p again (length (transcript ts)) r s)
  unfolding on_response
  on_response-Settles again ih (err e) rs s o = generate_failed-Settles e rs s o
  on_response-Settles again ih (ok response) rs s o =
      elim (Bool-cases (is_empty (calls_of response.tool_calls))) [
        | inl e ↦
            subst (Settles ts caller_text n)
              (sym (on_response_final p again (length (transcript ts)) response s e))
              (final_reply-Settles response rs s o)
        | inr e ↦
            subst (Settles ts caller_text n)
              (sym (on_response_round p again (length (transcript ts)) response s e))
              (ih _ (tool_round p response s) (tool_round-Open response rs s e o))
      ]

  tool_loop-Settles :
      (left : ℕ) (rs : List Round) (s : State W)
      → Open rs s
      → Settles ts caller_text n (tool_loop p (length (transcript ts)) left s)
  unfolding tool_loop
  tool_loop-Settles zero rs s o = inl (
    refl,
    ap (take (length (transcript ts))) o.0
        ∙ take-append_self (transcript ts) (opening caller_text rs),
  )
  tool_loop-Settles (suc left) rs s o =
      on_response-Settles (tool_loop p (length (transcript ts)) left) (tool_loop-Settles left)
        (call_generate p s).0 rs (call_generate p s).1 o

module _ {W : Type 0} (p : Providers W) (ts : List Turn) (caller_text : Text) where
  -- From a history of whole turns, an utterance ends in one of four ways. The limit of the call is
  -- reached: the limit's reply, and the state is untouched. The turn is abandoned: the fallback, and
  -- the history is what it was. The turn is closed: its reply was added, and the history is
  -- trimmed. An exception is raised that is not `LLMProviderError`.
  pub handle_utterance-Settles :
      (s : State W)
      → s.conv.history ≡ transcript ts
      → (handle_utterance p caller_text s ≡ (ok call_limit_reply, s))
        ⊎ Settles ts caller_text s.conv.max_history_turns (handle_utterance p caller_text s)
  unfolding handle_utterance
  handle_utterance-Settles s h = elim (Bool-cases (call_limit_reached p s)) [
    | inl limit ↦ inl (rw limit)
    | inr free ↦ inr (
        rw free (
          rw h (
            tool_loop-Settles p ts caller_text s.conv.max_history_turns s.conv.max_tool_iterations
              [] _ (refl, refl))))
  ]
