-- ===== src/Services/Finished.antt =====
-- A call of src/openvoice/telephony/worker.py from its start to its end: the row of the call, the conversation with the
-- booking tools, and what `finalize_call` stores.
use open_voice.Base.{
  ℕ, suc, ◌≡◌, refl, sym, ap, subst, ◌∙◌, inl, inr, false, Option, none, some, List, [], ◌∷◌, ◌++◌,
  arith, any, ◌==◌, Bool-cases, All,
}
use open_voice.Base.Text.{Text}
use open_voice.Base.Result.{Result, ok, err, ◌>>=◌}
use open_voice.Llm.{LlmMessage, ToolCall}
use open_voice.Db.{Call, CallTranscript, Client, Db, find_call, insert_client}
use open_voice.Crm.{one_or_create, create_client, get_or_create_client}
use open_voice.Conversation.{Providers, State}
use open_voice.Conversation.Loop.Limit.{talk}
use open_voice.Booking.Service.{World}
use open_voice.Tools.{Binding}
use open_voice.Tools.Executor.{execute}
use open_voice.Tools.Guards.Calls.{execute_tables}
use open_voice.Telephony.Call.{
  call_row, speaker, is_silent, transcript_rows, completed_call, complete_row, has_row,
  store_transcript, finalize_call, add_call, start_call,
}
use open_voice.Services.Line.{Line, LeavesWorld, with_tools, talk_keeps}

-- No row of the call is there yet.
abbrev pub IsNew : ℕ → Db → Type 0
IsNew call_id db =
    (find_call call_id db.calls ≡ none)
    × All (λ (t : CallTranscript). (t.call_id == call_id) ≡ false) db.transcripts

find_call_added :
    (call_id : ℕ) (calls : List Call) (c : Call)
    → find_call call_id calls ≡ none
    → c.id ≡ call_id
    → find_call call_id (calls ++ c ∷ []) ≡ some c
find_call_added call_id [] c h k = ground arith
find_call_added call_id (d ∷ calls) c h k = ground (arith, find_call_added call_id calls c)

find_call_completed :
    (call_id now : ℕ) (calls : List Call) (c : Call)
    → find_call call_id calls ≡ some c
    → find_call call_id (complete_row call_id now calls) ≡ some (completed_call now c)
find_call_completed call_id now [] c h = cc
find_call_completed call_id now (d ∷ calls) c h =
    ground (arith, find_call_completed call_id now calls c)

row_is_new :
    (r : CallTranscript) (stored : List CallTranscript)
    → All (λ (t : CallTranscript). (t.call_id == r.call_id) ≡ false) stored
    → has_row stored r ≡ false
row_is_new r [] h = refl
row_is_new r (t ∷ stored) h = ground (arith, row_is_new r stored h.1)

rows_are_new :
    (call_id i : ℕ) (stored : List CallTranscript) (history : List LlmMessage)
    → All (λ (t : CallTranscript). (t.call_id == call_id) ≡ false) stored
    → any (has_row stored) (transcript_rows call_id i history) ≡ false
unfolding transcript_rows
rows_are_new call_id i stored [] h = refl
rows_are_new call_id i stored (m ∷ history) h = elim (Bool-cases (is_silent m)) [
  | inl silent ↦ rw (silent, transcript_rows) (rows_are_new call_id (suc i) stored history h)
  | inr said ↦
      let row : CallTranscript = record {
        call_id = call_id;
        sequence = i;
        role = speaker m;
        text = m.content;
      } in
      rw
        (
          said,
          transcript_rows,
          row_is_new row stored h,
          rows_are_new call_id (suc i) stored history h,
        )
        refl
]

-- What looking the caller up leaves of the other tables: all of it.
abbrev SameCalls : Db → Db → Type 0
SameCalls db d = (d.calls ≡ db.calls) × (d.transcripts ≡ db.transcripts)

created_calls : (c : Client) (db : Db) → SameCalls db (create_client c db).1
unfolding insert_client
created_calls c db = (ground arith, ground arith)

found_calls :
    (found : List Client) (phone_number : Text) (db : Db)
    → SameCalls db (one_or_create found phone_number db).1
found_calls [] phone_number db = created_calls _ db
found_calls (c ∷ []) phone_number db = (refl, refl)
found_calls (c ∷ d ∷ cs) phone_number db = (refl, refl)

module _ (call_id : ℕ) (room : Text) (now : ℕ) (db : Db) (new : IsNew call_id db) where
  -- The row of the call is there, and no transcript of it.
  abbrev Begun : Option ℕ → Db → Type 0
  Begun client_id d =
      (find_call call_id d.calls ≡ some (call_row call_id client_id room now))
      × All (λ (t : CallTranscript). (t.call_id == call_id) ≡ false) d.transcripts

  added-Begun :
      (client_id : Option ℕ) (d : Db)
      → SameCalls db d
      → Begun client_id (add_call call_id room now client_id d).1
  added-Begun client_id d (calls, transcripts) = (
    find_call_added call_id d.calls (call_row call_id client_id room now)
        (ap (find_call call_id) calls ∙ new.0) refl,
    subst (All (λ (t : CallTranscript). (t.call_id == call_id) ≡ false)) (sym transcripts) new.1,
  )

  abbrev Starts : Result (Option ℕ) × Db → Type 0
  Starts (ok client_id, d) = Begun client_id d
  Starts (err e, d) = Unit

  after_client :
      (p : Result Client × Db)
      → SameCalls db p.1
      → Starts (((λ (_ : Db). p) >>= λ client. add_call call_id room now (some client.id)) db)
  after_client (ok c, d) same = added-Begun (some c.id) d same
  after_client (err e, d) same = tt

  start_call-Starts : (phone : Option Text) → Starts (start_call call_id room now phone db)
  unfolding start_call get_or_create_client
  start_call-Starts none = added-Begun none db (refl, refl)
  start_call-Starts (some phone_number) =
      after_client (get_or_create_client phone_number db) (found_calls _ phone_number db)

found_is :
    (call_id ended : ℕ) (history : List LlmMessage) (d : Db) (c : Call)
    → find_call call_id d.calls ≡ some c
    → finalize_call call_id ended history d
      ≡ store_transcript call_id ended (transcript_rows call_id 0 history) d
unfolding finalize_call
found_is call_id ended history d c h = rw (h, finalize_call) refl

stored_is :
    (call_id ended : ℕ) (rows : List CallTranscript) (d : Db)
    → any (has_row d.transcripts) rows ≡ false
    → store_transcript call_id ended rows d
      ≡ ok (record d {
        calls = complete_row call_id ended d.calls;
        transcripts = d.transcripts ++ rows;
      })
stored_is call_id ended rows d h = rw h refl

finished :
    (call_id ended : ℕ) (history : List LlmMessage) (d : Db) (c : Call)
    → find_call call_id d.calls ≡ some c
    → All (λ (t : CallTranscript). (t.call_id == call_id) ≡ false) d.transcripts
    → (d' : Db) × (finalize_call call_id ended history d ≡ ok d')
      × (find_call call_id d'.calls ≡ some (completed_call ended c))
      × (d'.transcripts ≡ d.transcripts ++ transcript_rows call_id 0 history)
finished call_id ended history d c h all = (
  record d {
    calls = complete_row call_id ended d.calls;
    transcripts = d.transcripts ++ transcript_rows call_id 0 history;
  },
  found_is call_id ended history d c h
      ∙ stored_is call_id ended (transcript_rows call_id 0 history) d
          (rows_are_new call_id 0 d.transcripts history all),
  find_call_completed call_id ended d.calls c h,
  refl,
)

module _ {R : Type 0} (b : Binding) (p : Providers (Line R)) (leaves : LeavesWorld p) where
  -- A call that has started comes to its end: when the row of a new call has been stored, then however long the caller speaks
  -- with the agent, with the booking tools and a model that is asked without touching the database,
  -- `finalize_call` raises nothing, marks the row of the call completed and adds the transcript of
  -- the conversation's history to the stored ones.
  pub call_finishes :
      (call_id now ended : ℕ) (room : Text) (phone : Option Text) (db : Db) (client_id : Option ℕ)
      (texts : List Text) (s : State (Line R))
      → IsNew call_id db
      → start_call call_id room now phone db ≡ (ok client_id, s.world.world.db)
      → let after = talk (with_tools b p) texts s in
        (d : Db) × (finalize_call call_id ended after.conv.history after.world.world.db ≡ ok d)
        × (find_call call_id d.calls
            ≡ some (completed_call ended (call_row call_id client_id room now)))
        × (d.transcripts
            ≡ s.world.world.db.transcripts ++ transcript_rows call_id 0 after.conv.history)
  call_finishes call_id now ended room phone db client_id texts s new started =
      let begun =
        subst (Starts call_id room now db new) started
          (start_call-Starts call_id room now db new phone) in
      let kept =
        talk_keeps b p leaves (SameWorldCalls s.world.world) (keeps_calls s.world.world) texts s
          (refl, refl) in
      let after = talk (with_tools b p) texts s in
      let (d, is, completed, stored) =
        finished call_id ended after.conv.history after.world.world.db _
          (ap (find_call call_id) kept.0 ∙ begun.0)
          (subst (All (λ (t : CallTranscript). (t.call_id == call_id) ≡ false)) (sym kept.1)
            begun.1) in
      (
        d,
        is,
        completed,
        stored ∙ ap (λ rows. rows ++ transcript_rows call_id 0 after.conv.history) kept.1,
      )
    where
      SameWorldCalls : World → World → Type 0
      SameWorldCalls v w = SameCalls v.db w.db

      keeps_calls :
          (v : World) (now : ℕ) (w : World) (call : ToolCall)
          → SameWorldCalls v w
          → SameWorldCalls v (execute (record b { now = now }) call w).1
      keeps_calls v now w call h =
          let k = execute_tables (record b { now = now }) w call in
          (k.calls ∙ h.0, k.transcripts ∙ h.1)
