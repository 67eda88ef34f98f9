-- ===== src/Conversation/Loop/Limit.antt =====
-- A call comes to its end (src/openvoice/agent/conversation.py): the limit on the turns of a conversation, over
-- whole sequences of utterances.
use open_voice.Base.{
  ℕ, ◌+◌, ◌≡◌, ◌≤◌, refl, ap, ◌∙◌, inl, inr, true, false, some, List, [], ◌∷◌, arith, Bool-cases,
  length,
}
use open_voice.Base.Text.{Text}
use open_voice.Base.Result.{ok}
use open_voice.Conversation.{Conversation, Providers, State, call_limit_reply}
use open_voice.Conversation.Loop.{call_limit_reached, handle_utterance}
use open_voice.Conversation.Loop.Stable.{Stable, handle_utterance_open}

-- the conversation without its history
abbrev pub setup : Conversation → Conversation
setup c = record c { history = [] }

-- The utterances of a caller, one after the other, whatever comes out of each.
unfoldable pub talk : {W : Type 0} → Providers W → List Text → State W → State W
talk p [] s = s
talk p (caller_text ∷ rest) s = talk p rest (handle_utterance p caller_text s).1

module _ {W : Type 0} (p : Providers W) where
  setup-Stable : (c : Conversation) → Stable p (λ s. setup s.conv ≡ c)
  setup-Stable c = record {
    on_history = λ h s e. e;
    on_metrics = λ m s e. e;
    on_generate = λ s e. e;
    on_tool = λ call s e. e;
  }

  -- a turn is counted, and nothing else of the set-up changes
  one_more :
      (caller_text : Text) (s : State W)
      → call_limit_reached p s ≡ false
      → setup (handle_utterance p caller_text s).1.conv
        ≡ setup (record (s.conv) { turn_count = s.conv.turn_count + 1 })
  one_more caller_text s free =
      handle_utterance_open p
        (λ t. setup t.conv ≡ setup (record (s.conv) { turn_count = s.conv.turn_count + 1 }))
        (setup-Stable (setup (record (s.conv) { turn_count = s.conv.turn_count + 1 }))) caller_text
        s free refl

  limited_lem :
      (caller_text : Text) (s : State W)
      → call_limit_reached p s ≡ true
      → handle_utterance p caller_text s ≡ (ok call_limit_reply, s)
  unfolding handle_utterance
  limited_lem caller_text s limit = ground arith

  talk-limited :
      (texts : List Text) (s : State W) → call_limit_reached p s ≡ true → talk p texts s ≡ s
  unfolding talk
  talk-limited [] s limit = refl
  talk-limited (caller_text ∷ texts) s limit =
      ap (λ r. talk p texts r.1) (limited_lem caller_text s limit) ∙ talk-limited texts s limit

  at_limit :
      (n : ℕ) (s : State W)
      → s.conv.max_conversation_turns ≡ some n
      → n ≤ s.conv.turn_count
      → call_limit_reached p s ≡ true
  unfolding call_limit_reached
  at_limit n s h le = ground arith

  talk_reaches :
      (n : ℕ) (texts : List Text) (s : State W)
      → s.conv.max_conversation_turns ≡ some n
      → n ≤ s.conv.turn_count + length texts
      → call_limit_reached p (talk p texts s) ≡ true
  unfolding talk
  talk_reaches n [] s h le = at_limit n s h (omega (arith, le))
  talk_reaches n (caller_text ∷ texts) s h le = elim (Bool-cases (call_limit_reached p s)) [
    | inl limit ↦ ap (call_limit_reached p) (talk-limited (caller_text ∷ texts) s limit) ∙ limit
    | inr free ↦
        let more = one_more caller_text s free in
        talk_reaches n texts (handle_utterance p caller_text s).1
          (ap (λ (c : Conversation). c.max_conversation_turns) more ∙ h)
          (omega (arith, le, ap (λ (c : Conversation). c.turn_count) more))
  ]

  -- A call ends: with a limit of `n` turns, once the caller has spoken often enough to use up the turns
  -- that are left, every further utterance is answered by the hand-over to a human and
  -- changes nothing, whatever the provider and the tools did before.
  pub talk_ends :
      (n : ℕ) (texts : List Text) (caller_text : Text) (s : State W)
      → s.conv.max_conversation_turns ≡ some n
      → n ≤ s.conv.turn_count + length texts
      → handle_utterance p caller_text (talk p texts s) ≡ (ok call_limit_reply, talk p texts s)
  talk_ends n texts caller_text s h le =
      limited_lem caller_text (talk p texts s) (talk_reaches n texts s h le)
