-- ===== src/Telephony/Call/Transcript.antt =====
-- The transcript that `finalize_call` of src/openvoice/telephony/worker.py stores.
use open_voice.Base.{
  if◌then◌else◌, sym, subst, ◌⊎◌, ◌≢◌, ◌||◌, true, false, is_empty, ℕ, suc, ◌+◌, ◌≡◌, ◌<◌, ◌≤◌,
  refl, ap, inl, inr, List, [], ◌∷◌, arith, Bool-cases, length,
}
use open_voice.Base.Text.{Text}
use open_voice.Llm.{Role, is_role, LlmMessage}
use open_voice.Db.{CallTranscript, SpeakerRole}
use open_voice.Telephony.Call.{speaker, is_silent, transcript_rows}

-- The rows are numbered in increasing order, from `n` on and below `m`.
abbrev pub Numbered : ℕ → ℕ → List CallTranscript → Type 0
Numbered n m [] = Unit
Numbered n m (r ∷ rows) = (n ≤ r.sequence) × (r.sequence < m) × Numbered (suc r.sequence) m rows

Numbered-le :
    (n k m : ℕ) (rows : List CallTranscript) → n ≤ k → Numbered k m rows → Numbered n m rows
Numbered-le n k m [] le h = tt
Numbered-le n k m (r ∷ rows) le h = (omega (arith, h.0), h.1, h.2)

transcript_rows-Numbered :
    (call_id i m : ℕ) (history : List LlmMessage)
    → i + length history ≤ m
    → Numbered i m (transcript_rows call_id i history)
unfolding transcript_rows
transcript_rows-Numbered call_id i m [] h = tt
transcript_rows-Numbered call_id i m (x ∷ history) h = elim (Bool-cases (is_silent x)) [
  | inl silent ↦
      rw (silent, transcript_rows)
        (Numbered-le i (suc i) m _ (omega arith)
          (transcript_rows-Numbered call_id (suc i) m history (omega (arith, h))))
  | inr said ↦
      rw (said, transcript_rows)
        (
          omega arith,
          omega (arith, h),
          transcript_rows-Numbered call_id (suc i) m history (omega (arith, h)),
        )
]

-- The transcript of a history whose first message has index `i`: answers of tools and messages without text are left
-- out, and of every other message there is one row, with its index, its text, and the caller as the speaker of a user's
-- message and the agent as that of the model's.
pub data Transcribes (call_id : ℕ) : ℕ → List LlmMessage → List CallTranscript → Type 0 where
  ended : (i : ℕ) → Transcribes call_id i [] []
  of_tool :
      (i : ℕ) (m : LlmMessage) (history : List LlmMessage) (rows : List CallTranscript)
      → m.role ≡ Role.tool
      → Transcribes call_id (suc i) history rows
      → Transcribes call_id i (m ∷ history) rows
  without_text :
      (i : ℕ) (m : LlmMessage) (history : List LlmMessage) (rows : List CallTranscript)
      → m.content ≡ []
      → Transcribes call_id (suc i) history rows
      → Transcribes call_id i (m ∷ history) rows
  said_by_caller :
      (i : ℕ) (m : LlmMessage) (history : List LlmMessage) (rows : List CallTranscript)
      → m.role ≡ Role.user
      → m.content ≢ []
      → Transcribes call_id (suc i) history rows
      → Transcribes call_id i (m ∷ history) (
          record { call_id = call_id; sequence = i; role = SpeakerRole.caller; text = m.content }
          ∷ rows)
  said_by_agent :
      (i : ℕ) (m : LlmMessage) (history : List LlmMessage) (rows : List CallTranscript)
      → m.role ≡ Role.assistant
      → m.content ≢ []
      → Transcribes call_id (suc i) history rows
      → Transcribes call_id i (m ∷ history) (
          record { call_id = call_id; sequence = i; role = SpeakerRole.agent; text = m.content }
          ∷ rows)

abbrev speaker_of : Role → SpeakerRole
speaker_of role = if is_role Role.user role then SpeakerRole.caller else SpeakerRole.agent

silent_lem :
    (role : Role) (content : Text)
    → (is_role Role.tool role || is_empty content) ≡ true
    → (role ≡ Role.tool) ⊎ (content ≡ [])
silent_lem Role.tool content h = inl refl
silent_lem role [] h = inr refl
silent_lem Role.user (c ∷ content) h = cc
silent_lem Role.assistant (c ∷ content) h = cc

said_lem :
    (role : Role) (content : Text)
    → (is_role Role.tool role || is_empty content) ≡ false
    → ((role ≡ Role.user) ⊎ (role ≡ Role.assistant)) × (content ≢ [])
said_lem Role.user (c ∷ content) h = (inl refl, λ k. cc)
said_lem Role.assistant (c ∷ content) h = (inr refl, λ k. cc)
said_lem Role.tool content h = cc
said_lem Role.user [] h = cc
said_lem Role.assistant [] h = cc

abbrev row : ℕ → ℕ → SpeakerRole → LlmMessage → CallTranscript
row call_id i s m = record { call_id = call_id; sequence = i; role = s; text = m.content }

caller_lem : (m : LlmMessage) → m.role ≡ Role.user → speaker m ≡ SpeakerRole.caller
caller_lem m h = ap speaker_of h

agent_lem : (m : LlmMessage) → m.role ≡ Role.assistant → speaker m ≡ SpeakerRole.agent
agent_lem m h = ap speaker_of h

transcript_rows-Transcribes :
    (call_id i : ℕ) (history : List LlmMessage)
    → Transcribes call_id i history (transcript_rows call_id i history)
unfolding transcript_rows
transcript_rows-Transcribes call_id i [] = ended i
transcript_rows-Transcribes call_id i (x ∷ history) =
    let rest = transcript_rows-Transcribes call_id (suc i) history in
    elim (Bool-cases (is_silent x)) [
      | inl silent ↦
          rw (silent, transcript_rows)
            (elim (silent_lem x.role x.content silent) [
              | inl tool ↦ of_tool i x history _ tool rest
              | inr blank ↦ without_text i x history _ blank rest
            ])
      | inr said ↦
          let (by, text) = said_lem x.role x.content said in
          rw (said, transcript_rows)
            (elim by [
              | inl user ↦
                  subst
                    (λ s.
                      Transcribes call_id i (x ∷ history)
                        (row call_id i s x ∷ transcript_rows call_id (suc i) history))
                    (sym (caller_lem x user)) (said_by_caller i x history _ user text rest)
              | inr model ↦
                  subst
                    (λ s.
                      Transcribes call_id i (x ∷ history)
                        (row call_id i s x ∷ transcript_rows call_id (suc i) history))
                    (sym (agent_lem x model)) (said_by_agent i x history _ model text rest)
            ])
    ]

-- The stored transcript is that of the history from index 0 on: a row for each message with text that is no
-- answer of a tool, in the history's order, with its index, its text and its speaker; and the rows are numbered in
-- increasing order below the length of the history.
pub transcript_rows_complete :
    (call_id : ℕ) (history : List LlmMessage)
    → Transcribes call_id 0 history (transcript_rows call_id 0 history)
      × Numbered 0 (length history) (transcript_rows call_id 0 history)
transcript_rows_complete call_id history = (
  transcript_rows-Transcribes call_id 0 history,
  transcript_rows-Numbered call_id 0 (length history) history (omega arith),
)
