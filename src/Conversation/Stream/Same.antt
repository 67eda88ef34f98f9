-- ===== src/Conversation/Stream/Same.antt =====
-- `handle_utterance_stream` against `handle_utterance` (src/openvoice/agent/conversation.py), for a
-- provider that gives the same completion to both.
use open_voice.Base.{
  ℕ, suc, ◌≡◌, sym, ap, ◌∙◌, ◌⊎◌, inl, inr, false, none, some, List, [], ◌∷◌, ◌++◌, length, concat,
  is_empty,
}
use open_voice.Base.Text.{Text, strip}
use open_voice.Base.Result.{ok}
use open_voice.Llm.{LlmResponse, calls_of}
use open_voice.Reply.{AgentReply, fresh, feed_all, finalize, parse_structured_reply}
use open_voice.Reply.Stream.{finalize-feed_all}
use open_voice.Conversation.{Providers, State, open_turn, reply_of, is_transfer_intent}
use open_voice.Conversation.Loop.{
  call_limit_reached, call_generate, on_response, tool_loop, handle_utterance,
}
use open_voice.Conversation.Loop.Rounds.{on_response_final}
use open_voice.Conversation.Loop.Requests.{final_reply_ok}
use open_voice.Conversation.Stream.{after_stream, stream_turn, handle_utterance_stream}
use open_voice.Conversation.Stream.Turns.{stream_free}

-- The provider gives the same completion either way.
abbrev pub SameCompletion :
    {W : Type 0} → Providers W → Text → State W → LlmResponse → List Text → Type 0
SameCompletion p caller_text s response deltas =
    let asked = open_turn caller_text s in
    ((p.generate asked.conv.history s.conv.system_prompt none s.world).0 ≡ ok response)
    × ((p.generate_stream asked.conv.history s.conv.system_prompt s.world).0 ≡ (deltas, none))
    × (calls_of response.tool_calls ≡ [])
    × (response.content ≡ concat deltas)

module _ {W : Type 0} (p : Providers W) (caller_text : Text) (s : State W) where
  loop_reply :
      (start left : ℕ) (response : LlmResponse) (s' : State W)
      → (call_generate p s').0 ≡ ok response
      → calls_of response.tool_calls ≡ []
      → (tool_loop p start (suc left) s').0 ≡ (
          let (intent, text) = parse_structured_reply response.content in ok (reply_of intent text))
  unfolding tool_loop
  loop_reply start left response s' g c =
      let again = tool_loop p start left in
      let after = (call_generate p s').1 in
      ap (λ r. (on_response p again start r after).0) g
      ∙ ap (λ x. x.0) (on_response_final p again start response after (ap is_empty c))
      ∙ final_reply_ok p response after

  handle_free :
      call_limit_reached p s ≡ false
      → handle_utterance p caller_text s
        ≡ tool_loop p (length s.conv.history) s.conv.max_tool_iterations (open_turn caller_text s)
  unfolding handle_utterance
  handle_free free = rw (free, handle_utterance)

  stream_reply :
      (start : ℕ) (deltas : List Text) (s' : State W)
      → (p.generate_stream s'.conv.history s'.conv.system_prompt s'.world).0 ≡ (deltas, none)
      → (stream_turn p start s').1.conv.last_reply ≡ (
          let (full, trailing, intent) = (finalize (feed_all fresh deltas).1).0 in
          some (reply_of intent full))
  unfolding stream_turn
  stream_reply start deltas s' g =
      let w = (p.generate_stream s'.conv.history s'.conv.system_prompt s'.world).1 in
      ap
        (λ streamed.
          (after_stream p start streamed (record s' {
            world = w;
            requests = s'.requests ++ s'.conv.history ∷ [];
          })).1.conv.last_reply)
        g

  -- Without tools, below the limit of the call and with at least one iteration: if the provider gives
  -- the same completion whole and as deltas, both ways make the same intent and the same decision to
  -- transfer, and their texts differ at most by blanks at the ends, unless the streamed one is blank.
  pub stream_same_reply :
      (left : ℕ) (response : LlmResponse) (deltas : List Text)
      → s.conv.tools ≡ none
      → s.conv.max_tool_iterations ≡ suc left
      → call_limit_reached p s ≡ false
      → SameCompletion p caller_text s response deltas
      → (whole : AgentReply) × (streamed : AgentReply) × ((handle_utterance p caller_text s).0
          ≡ ok whole)
        × ((handle_utterance_stream p caller_text s).1.conv.last_reply ≡ some streamed)
        × (streamed.intent ≡ whole.intent)
        × (streamed.transfer_to_human ≡ whole.transfer_to_human)
        × ((strip streamed.text ≡ []) ⊎ (strip streamed.text ≡ whole.text))
  stream_same_reply left response deltas plain iterations free same =
      let asked = open_turn caller_text s in
      let start = length s.conv.history in
      let whole = parse_structured_reply response.content in
      let streamed = (finalize (feed_all fresh deltas).1).0 in
      let (pieces, intent, text) = finalize-feed_all deltas in
      let content = ap parse_structured_reply same.3 in
      (
        reply_of whole.0 whole.1,
        reply_of streamed.2 streamed.0,
        ap (λ x. x.0) (handle_free free)
            ∙ ap (λ k. (tool_loop p start k asked).0) iterations
            ∙ loop_reply start left response asked
                (ap (λ tools. (p.generate asked.conv.history s.conv.system_prompt tools s.world).0)
                    plain
                  ∙ same.0)
                same.2,
        ap (λ x. x.1.conv.last_reply) (stream_free p caller_text s plain free)
            ∙ stream_reply start deltas asked same.1,
        intent ∙ ap (λ x. x.0) (sym content),
        ap is_transfer_intent (intent ∙ ap (λ x. x.0) (sym content)),
        elim text [
          | inl blank ↦ inl blank
          | inr same_text ↦ inr (same_text ∙ ap (λ x. x.1) (sym content))
        ],
      )
