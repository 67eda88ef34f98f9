-- ===== src/Conversation/Stream/Turns.antt =====
-- What `handle_utterance_stream` of src/openvoice/agent/conversation.py yields, and what it records.
use open_voice.Base.{
  ℕ, ◌≡◌, ◌≢◌, refl, sym, ap, ap₂, subst, ◌∙◌, ◌⊎◌, inl, inr, true, false, Option, none, some, List,
  [], ◌∷◌, ◌++◌, append-nil, append_assoc, arith, Bool-cases, length, take, concat, concat-append,
}
use open_voice.Base.Text.{Text}
use open_voice.Base.Result.{Error}
use open_voice.Llm.{Role, text_message}
use open_voice.Reply.{Intent, fresh, feed_all, finalize}
use open_voice.Reply.Stream.{finalize-feed_all}
use open_voice.Conversation.{
  Providers, State, trim_history, open_turn, fallback_reply, fallback_message, call_limit_reply,
  call_limit_message, reply_of, set_last_reply,
}
use open_voice.Conversation.Loop.{call_limit_reached}
use open_voice.Conversation.Loop.Turns.{Open, take-append_self}
use open_voice.Conversation.Stream.{
  speakable, optional_chunk, stream_failed, stream_ended, after_stream, stream_turn,
  handle_utterance_stream,
}
use open_voice.Conversation.History.{Turn, opening, transcript, transcript-append_one}

concat-speakable : (xs : List Text) → concat (speakable xs) ≡ concat xs
concat-speakable [] = refl
concat-speakable ([] ∷ xs) = concat-speakable xs
concat-speakable ((c ∷ x) ∷ xs) = ap (λ t. (c ∷ x) ++ t) (concat-speakable xs)

concat-optional_chunk : (t : Text) → concat (optional_chunk t) ≡ t
concat-optional_chunk [] = refl
concat-optional_chunk (c ∷ t) = append-nil (c ∷ t)

-- How a streamed turn that began after the turns `ts` has ended: with the fallback spoken last and
-- the history as it was, or with a reply, all of which was spoken, that closes the turn;
-- an exception that comes out is no `LLMProviderError`.
abbrev pub StreamSettles :
    {W : Type 0} → List Turn → Text → ℕ → (List Text × Option Error) × State W → Type 0
StreamSettles ts caller_text n ((outs, none), s) =
    ((s.conv.last_reply ≡ some fallback_reply)
      × (s.conv.history ≡ transcript ts)
      × ((spoken : List Text) × (outs ≡ spoken ++ fallback_message ∷ [])))
    ⊎ ((t : Turn) × (t.caller_text ≡ caller_text)
        × (concat outs ≡ t.reply)
        × ((i : Intent) × (s.conv.last_reply ≡ some (reply_of i t.reply)))
        × (s.conv.history ≡ trim_history n (transcript (ts ++ t ∷ []))))
StreamSettles ts caller_text n ((outs, some e), s) = (why : Text) → e ≢ Error.llm_provider_error why

module _ {W : Type 0} (p : Providers W) (ts : List Turn) (caller_text : Text) (n : ℕ) where
  stream_failed-Settles :
      (spoken : List Text) (e : Error) (s : State W)
      → Open p ts caller_text n [] s
      → StreamSettles ts caller_text n (stream_failed p (length (transcript ts)) spoken e s)
  stream_failed-Settles spoken (Error.llm_provider_error why) s o = inl (
    refl,
    ap (take (length (transcript ts))) o.0
        ∙ take-append_self (transcript ts) (opening caller_text []),
    (spoken, refl),
  )
  stream_failed-Settles spoken (Error.booking_error why) s o = λ w. ground arith
  stream_failed-Settles spoken e s o = λ w. ground arith

  stream_ended-Settles :
      (outs : List Text) (f : Text × Text × Intent) (s : State W)
      → concat outs ++ f.1 ≡ f.0
      → Open p ts caller_text n [] s
      → StreamSettles ts caller_text n (stream_ended p (speakable outs) f s)
  stream_ended-Settles outs (text, trailing, intent) s whole o =
      let t : Turn = record { caller_text = caller_text; rounds = []; reply = text } in
      inr (
        t,
        refl,
        concat-append (speakable outs) (optional_chunk trailing)
            ∙ ap₂ ◌++◌ (concat-speakable outs) (concat-optional_chunk trailing)
            ∙ whole,
        (intent, refl),
        ap₂ trim_history o.1 (
            ap (λ h. h ++ text_message Role.assistant text ∷ []) o.0
            ∙ append_assoc (transcript ts) (opening caller_text [])
                (text_message Role.assistant text ∷ [])
            ∙ sym (transcript-append_one ts t)),
      )

  after_stream-Settles :
      (streamed : List Text × Option Error) (s : State W)
      → Open p ts caller_text n [] s
      → StreamSettles ts caller_text n (after_stream p (length (transcript ts)) streamed s)
  after_stream-Settles (deltas, some e) s o =
      stream_failed-Settles (speakable (feed_all fresh deltas).0) e s o
  after_stream-Settles (deltas, none) s o =
      stream_ended-Settles (feed_all fresh deltas).0 (finalize (feed_all fresh deltas).1).0 s
        (finalize-feed_all deltas).0 o

  stream_turn-Settles :
      (s : State W)
      → Open p ts caller_text n [] s
      → StreamSettles ts caller_text n (stream_turn p (length (transcript ts)) s)
  unfolding stream_turn
  stream_turn-Settles s o =
      let r = p.generate_stream s.conv.history s.conv.system_prompt s.world in
      after_stream-Settles r.0
        (record s { world = r.1; requests = s.requests ++ s.conv.history ∷ [] }) o

module _ {W : Type 0} (p : Providers W) (caller_text : Text) (s : State W) where
  pub stream_limited :
      s.conv.tools ≡ none
      → call_limit_reached p s ≡ true
      → handle_utterance_stream p caller_text s
        ≡ ((call_limit_message ∷ [], none), set_last_reply call_limit_reply s)
  unfolding handle_utterance_stream
  stream_limited plain limit = ground arith

  pub stream_free :
      s.conv.tools ≡ none
      → call_limit_reached p s ≡ false
      → handle_utterance_stream p caller_text s
        ≡ stream_turn p (length s.conv.history) (open_turn caller_text s)
  unfolding handle_utterance_stream
  stream_free plain free = ground arith

module _ {W : Type 0} (p : Providers W) (ts : List Turn) (caller_text : Text) where
  -- Without tools and from a history of whole turns, a streamed utterance ends in one of four ways.
  -- The limit of the call is reached: its message is all that is yielded, and the history is untouched.
  -- The provider fails: the fallback is yielded last, and the history is what it was.
  -- The stream ends: what was yielded is, piece by piece, the reply that is recorded, and the history
  -- is trimmed. An exception is raised that is not `LLMProviderError`.
  pub handle_utterance_stream-Settles :
      (s : State W)
      → s.conv.tools ≡ none
      → s.conv.history ≡ transcript ts
      → (handle_utterance_stream p caller_text s
          ≡ ((call_limit_message ∷ [], none), set_last_reply call_limit_reply s))
        ⊎ StreamSettles ts caller_text s.conv.max_history_turns
            (handle_utterance_stream p caller_text s)
  handle_utterance_stream-Settles s plain h = elim (Bool-cases (call_limit_reached p s)) [
    | inl limit ↦ inl (stream_limited p caller_text s plain limit)
    | inr free ↦
        let n = s.conv.max_history_turns in
        let open_state = open_turn caller_text s in
        let began = ap (λ x. x ++ text_message Role.user caller_text ∷ []) h in
        inr (
          subst (StreamSettles ts caller_text n) (sym (stream_free p caller_text s plain free)) (
            subst (λ k. StreamSettles ts caller_text n (stream_turn p k open_state))
              (ap length (sym h))
              (stream_turn-Settles p ts caller_text n open_state (began, refl))))
  ]
