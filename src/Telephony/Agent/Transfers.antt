-- ===== src/Telephony/Agent/Transfers.antt =====
-- When `llm_node` (src/openvoice/telephony/livekit_agent.py) hands the call to a human.
use open_voice.Base.{
  ◌≡◌, refl, sym, ap, ◌≢◌, ◌&&◌, subst, ◌∙◌, true, false, Option, none, some, List, [], ◌∷◌, ◌++◌,
  arith, length,
}
use open_voice.Base.Text.{Text}
use open_voice.Base.Result.{Error}
use open_voice.Llm.{Role, text_message}
use open_voice.Reply.{fresh, feed_all}
use open_voice.Conversation.{
  Providers, State, open_turn, fallback_reply, fallback_message, call_limit_message,
}
use open_voice.Conversation.Loop.{call_limit_reached}
use open_voice.Conversation.Stream.{speakable, after_stream, stream_turn, handle_utterance_stream}
use open_voice.Conversation.Stream.Turns.{stream_free, stream_limited}
use open_voice.Conversation.Loop.Turns.{take-append_self}
use open_voice.Telephony.Agent.{ChatMessage, last_user_text, wants_transfer, after_reply, llm_node}

some_ne_none : {e : Error} → some e ≢ none
some_ne_none = λ h. cc

module _ {W : Type 0} (p : Providers W) (messages : List ChatMessage) (caller_text : Text)
    (s : State W) where
  node_lem :
      last_user_text messages ≡ some caller_text
      → llm_node p true messages s ≡ after_reply p true (handle_utterance_stream p caller_text s)
  unfolding llm_node
  node_lem h = ground arith

  -- Without tools, once the limit of the call is reached: the caller hears the limit's message and
  -- nothing else, and the transfer is started.
  pub llm_node_limited :
      last_user_text messages ≡ some caller_text
      → s.conv.tools ≡ none
      → call_limit_reached p s ≡ true
      → ((llm_node p true messages s).0.deltas ≡ call_limit_message ∷ [])
        × ((llm_node p true messages s).0.transferring ≡ true)
  llm_node_limited h plain limit =
      let all = node_lem h ∙ ap (after_reply p true) (stream_limited p caller_text s plain limit) in
      (ap (λ r. r.0.deltas) all, ap (λ r. r.0.transferring) all)

  transferred :
      (r : (List Text × Option Error) × State W) (deltas : List Text)
      → r.0 ≡ (deltas, none)
      → r.1.conv.last_reply ≡ some fallback_reply
      → ((after_reply p true r).0.deltas ≡ deltas)
        × ((after_reply p true r).0.transferring ≡ true)
        × ((after_reply p true r).1 ≡ r.1)
  transferred ((heard, none), t) deltas h k =
      (ap (λ x. x.0) h, ap (λ reply. wants_transfer reply && true) k, refl)
  transferred ((heard, some e), t) deltas h k = elim (some_ne_none (ap (λ x. x.1) h)) [ ]

  failed_lem :
      (deltas : List Text) (why : Text)
      → (p.generate_stream (open_turn caller_text s).conv.history s.conv.system_prompt s.world).0
        ≡ (deltas, some (Error.llm_provider_error why))
      → let r = stream_turn p (length s.conv.history) (open_turn caller_text s) in
        (r.0 ≡ (speakable (feed_all fresh deltas).0 ++ fallback_message ∷ [], none))
        × (r.1.conv.last_reply ≡ some fallback_reply)
        × (r.1.conv.history ≡ s.conv.history)
  unfolding stream_turn
  failed_lem deltas why h =
      subst
        (λ x.
          let r = after_stream p (length s.conv.history) x (record (open_turn caller_text s) {
            world =
                (p.generate_stream (open_turn caller_text s).conv.history s.conv.system_prompt
                  s.world).1;
            requests = s.requests ++ (open_turn caller_text s).conv.history ∷ [];
          }) in
          (r.0 ≡ (speakable (feed_all fresh deltas).0 ++ fallback_message ∷ [], none))
          × (r.1.conv.last_reply ≡ some fallback_reply)
          × (r.1.conv.history ≡ s.conv.history))
        (sym h)
        (refl, refl, take-append_self s.conv.history (text_message Role.user caller_text ∷ []))

  -- Without tools and below the limit, when the provider's stream breaks off with an LLMProviderError
  -- after any deltas: the fallback is the last thing yielded, the transfer is started, and the
  -- history is what it was before the utterance.
  pub llm_node_failed :
      (deltas : List Text) (why : Text)
      → last_user_text messages ≡ some caller_text
      → s.conv.tools ≡ none
      → call_limit_reached p s ≡ false
      → (p.generate_stream (open_turn caller_text s).conv.history s.conv.system_prompt s.world).0
        ≡ (deltas, some (Error.llm_provider_error why))
      → ((llm_node p true messages s).0.deltas
          ≡ speakable (feed_all fresh deltas).0 ++ fallback_message ∷ [])
        × ((llm_node p true messages s).0.transferring ≡ true)
        × ((llm_node p true messages s).1.conv.history ≡ s.conv.history)
  llm_node_failed deltas why h plain free broken =
      let all = node_lem h ∙ ap (after_reply p true) (stream_free p caller_text s plain free) in
      let (yielded, reply, history) = failed_lem deltas why broken in
      let (heard, started, same) =
        transferred (stream_turn p (length s.conv.history) (open_turn caller_text s)) _ yielded
          reply in
      (
        ap (λ r. r.0.deltas) all ∙ heard,
        ap (λ r. r.0.transferring) all ∙ started,
        ap (λ r. r.1.conv.history) all ∙ ap (λ (t : State W). t.conv.history) same ∙ history,
      )
