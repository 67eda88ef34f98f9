-- ===== src/Summary.antt =====
-- `summarize_call` of src/openvoice/tasks/summarize_call.py: the summary of a call, from its stored transcript.
-- The provider is a parameter; the Celery task that runs it is not modelled.
mod Tests
use open_voice.Base.{
  map, ℕ, ◌≡◌, refl, sym, ap, ◌∙◌, inl, inr, true, false, not, Option, none, some, List, [], ◌∷◌,
  ◌++◌, arith, Bool-cases, Option-cases, ◌==◌, leb, keep, if◌then◌else◌,
}
use open_voice.Base.Text.{Text, codes}
use open_voice.Base.Result.{Error, Result, ok, err, Exec}
use open_voice.Llm.{Role, LlmMessage, LlmResponse, text_message}
use open_voice.Db.{Call, CallTranscript, SpeakerRole, Db, find_call}

abbrev pub summary_system_prompt : Text
summary_system_prompt =
    codes
      "Summarize the following phone call transcript in 2-3 sentences for a staff member who wasn't on the call. Focus on what the caller wanted and what was resolved or still needs follow-up."

-- `SpeakerRole.value`
abbrev pub role_value : SpeakerRole → Text
role_value SpeakerRole.caller = codes "caller"
role_value SpeakerRole.agent = codes "agent"
role_value SpeakerRole.system = codes "system"

abbrev pub insert_by_sequence : CallTranscript → List CallTranscript → List CallTranscript
insert_by_sequence t [] = t ∷ []
insert_by_sequence t (u ∷ rows) =
    if leb t.sequence u.sequence then t ∷ u ∷ rows else u ∷ insert_by_sequence t rows

abbrev pub order_by_sequence : List CallTranscript → List CallTranscript
order_by_sequence [] = []
order_by_sequence (t ∷ rows) = insert_by_sequence t (order_by_sequence rows)

-- `call.transcripts`
abbrev pub transcripts_of : ℕ → List CallTranscript → List CallTranscript
transcripts_of call_id rows =
    order_by_sequence (keep (λ (t : CallTranscript). t.call_id == call_id) rows)

abbrev pub spoken_line : CallTranscript → Text
spoken_line t = role_value t.role ++ (codes ": " ++ t.text)

-- `"\n".join(...)`
abbrev pub transcript_text : List CallTranscript → Text
transcript_text [] = []
transcript_text (t ∷ []) = spoken_line t
transcript_text (t ∷ u ∷ rows) = spoken_line t ++ 10 ∷ transcript_text (u ∷ rows)

-- the row with the key, with its summary
abbrev pub set_summary : ℕ → Text → List Call → List Call
set_summary call_id summary [] = []
set_summary call_id summary (c ∷ cs) =
    if c.id == call_id
    then record c { summary = some summary } ∷ cs
    else c ∷ set_summary call_id summary cs

abbrev pub store_summary : ℕ → Result LlmResponse → Exec Db (Unit {0})
store_summary call_id (ok response) db =
    (ok tt, record db { calls = set_summary call_id response.content db.calls })
store_summary call_id (err e) db = (err e, db)

module _ (generate : List LlmMessage → Text → Result LlmResponse) where
  abbrev pub summarize_text : ℕ → Text → Exec Db (Unit {0})
  summarize_text call_id [] db = (ok tt, db)
  summarize_text call_id (c ∷ text) db =
      store_summary call_id
        (generate (text_message Role.user (c ∷ text) ∷ []) summary_system_prompt) db

  abbrev pub summarize_found : ℕ → Option Call → Exec Db (Unit {0})
  summarize_found call_id none db = (ok tt, db)
  summarize_found call_id (some c) db =
      summarize_text call_id (transcript_text (transcripts_of call_id db.transcripts)) db

  -- `summarize_call`
  unfoldable pub summarize_call : ℕ → Exec Db (Unit {0})
  summarize_call call_id db = summarize_found call_id (find_call call_id db.calls) db

abbrev pub without_summary : Call → Call
without_summary c = record c { summary = none }

abbrev pub other_calls : ℕ → List Call → List Call
other_calls call_id cs = keep (λ (c : Call). not (c.id == call_id)) cs

set_summary_lem :
    (call_id : ℕ) (summary : Text) (cs : List Call)
    → (map without_summary (set_summary call_id summary cs) ≡ map without_summary cs)
      × (other_calls call_id (set_summary call_id summary cs) ≡ other_calls call_id cs)
set_summary_lem call_id summary [] = (refl, refl)
set_summary_lem call_id summary (c ∷ cs) = elim (Bool-cases (c.id == call_id)) [
  | inl same ↦ (rw same refl, ground arith)
  | inr other ↦ (
    rw other (ap (λ r. without_summary c ∷ r) (set_summary_lem call_id summary cs).0),
    ground (arith, (set_summary_lem call_id summary cs).1),
  )
]

-- What a summary may change: the summary of the one call, and nothing else.
pub record OnlySummary (call_id : ℕ) (before after : Db) : Type 0 where
  pub rows : map without_summary after.calls ≡ map without_summary before.calls
  pub others : other_calls call_id after.calls ≡ other_calls call_id before.calls
  pub transcripts : after.transcripts ≡ before.transcripts
  pub appointments : after.appointments ≡ before.appointments
  pub clients : after.clients ≡ before.clients

same-OnlySummary : (call_id : ℕ) (db : Db) → OnlySummary call_id db db
same-OnlySummary call_id db = record {
  rows = refl;
  others = refl;
  transcripts = refl;
  appointments = refl;
  clients = refl;
}

module _ (generate : List LlmMessage → Text → Result LlmResponse) (call_id : ℕ) (db : Db) where
  store-OnlySummary :
      (r : Result LlmResponse) → OnlySummary call_id db (store_summary call_id r db).1
  store-OnlySummary (ok response) = record {
    rows = (set_summary_lem call_id response.content db.calls).0;
    others = (set_summary_lem call_id response.content db.calls).1;
    transcripts = refl;
    appointments = refl;
    clients = refl;
  }
  store-OnlySummary (err e) = same-OnlySummary call_id db

  text-OnlySummary :
      (text : Text) → OnlySummary call_id db (summarize_text generate call_id text db).1
  text-OnlySummary [] = same-OnlySummary call_id db
  text-OnlySummary (c ∷ text) =
      store-OnlySummary (generate (text_message Role.user (c ∷ text) ∷ []) summary_system_prompt)

  found-OnlySummary :
      (found : Option Call) → OnlySummary call_id db (summarize_found generate call_id found db).1
  found-OnlySummary none = same-OnlySummary call_id db
  found-OnlySummary (some c) =
      text-OnlySummary (transcript_text (transcripts_of call_id db.transcripts))

  -- Whatever the provider answers, `summarize_call` changes the summary of the call with the key at
  -- most: no other call, no other column, and no transcript, appointment or client.
  pub summarize_call-OnlySummary : OnlySummary call_id db (summarize_call generate call_id db).1
  unfolding summarize_call
  summarize_call-OnlySummary = found-OnlySummary (find_call call_id db.calls)
