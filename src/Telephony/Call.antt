-- ===== src/Telephony/Call.antt =====
-- src/openvoice/telephony/worker.py: the start and the end of a call. LiveKit is a parameter.
pub mod Transcript
use open_voice.Base.{
  any, ◌&&◌, ℕ, suc, ◌+◌, ◌≡◌, Bool, true, false, ◌||◌, Option, none, some, List, [], ◌∷◌, ◌++◌,
  ◌==◌, is_empty, if◌then◌else◌,
}
use open_voice.Base.Text.{Text, codes}
use open_voice.Base.Result.{Error, Result, ok, err, Exec, ◌>>=◌}
use open_voice.Crm.{get_or_create_client}
use open_voice.Llm.{Role, LlmMessage, is_role}
use open_voice.Db.{
  Call, CallDirection, CallStatus, CallTranscript, SpeakerRole, Db, Client, find_call,
}

-- What `attributes.get("sip.phoneNumber")` of a participant gives.
pub data Attribute : Type 0 where
  missing : Attribute
  text : Text → Attribute
  -- an object that is no string
  no_text : Attribute

-- `_caller_phone_number`, of the remote participants in order
unfoldable pub caller_phone_number : List Attribute → Option Text
caller_phone_number [] = none
caller_phone_number (text phone_number ∷ rest) =
    if is_empty phone_number then caller_phone_number rest else some phone_number
caller_phone_number (missing ∷ rest) = caller_phone_number rest
caller_phone_number (no_text ∷ rest) = caller_phone_number rest

-- the row that `entrypoint` adds
abbrev pub call_row : ℕ → Option ℕ → Text → ℕ → Call
call_row call_id client_id room now = record {
  id = call_id;
  client_id = client_id;
  livekit_room_name = room;
  direction = CallDirection.inbound;
  status = CallStatus.in_progress;
  started_at = now;
  ended_at = none;
  summary = none;
}

-- `SpeakerRole.CALLER if is_caller else SpeakerRole.AGENT`
abbrev pub speaker : LlmMessage → SpeakerRole
speaker m = if is_role Role.user m.role then SpeakerRole.caller else SpeakerRole.agent

-- `message.role is TOOL or not message.content`
abbrev pub is_silent : LlmMessage → Bool
is_silent m = is_role Role.tool m.role || is_empty m.content

-- the loop over `enumerate(conversation.history)`, from index `i` on
unfoldable pub transcript_rows : ℕ → ℕ → List LlmMessage → List CallTranscript
transcript_rows call_id i [] = []
transcript_rows call_id i (m ∷ history) =
    if is_silent m
    then transcript_rows call_id (suc i) history
    else record { call_id = call_id; sequence = i; role = speaker m; text = m.content }
      ∷ transcript_rows call_id (suc i) history

abbrev pub completed_call : ℕ → Call → Call
completed_call now c = record c { status = CallStatus.completed; ended_at = some now }

-- the row with the key, marked completed
abbrev pub complete_row : ℕ → ℕ → List Call → List Call
complete_row call_id now [] = []
complete_row call_id now (c ∷ cs) =
    if c.id == call_id then completed_call now c ∷ cs else c ∷ complete_row call_id now cs

-- `UniqueConstraint("call_id", "sequence")`: a stored row has the key of the new one
abbrev pub has_row : List CallTranscript → CallTranscript → Bool
has_row stored r =
    any (λ (t : CallTranscript). t.call_id == r.call_id && t.sequence == r.sequence) stored

-- the commit of `finalize_call`, for a call that exists
abbrev pub store_transcript : ℕ → ℕ → List CallTranscript → Db → Result Db
store_transcript call_id now rows db =
    if any (has_row db.transcripts) rows
    then err Error.integrity_error
    else ok (record db {
      calls = complete_row call_id now db.calls;
      transcripts = db.transcripts ++ rows;
    })

-- the database work of `finalize_call`
unfoldable pub finalize_call : ℕ → ℕ → List LlmMessage → Db → Result Db
finalize_call call_id now history db = elim (find_call call_id db.calls) [
  | none ↦ ok db
  | some c ↦ store_transcript call_id now (transcript_rows call_id 0 history) db
]

-- the row of the call, added and committed
abbrev pub add_call : ℕ → Text → ℕ → Option ℕ → Exec Db (Option ℕ)
add_call call_id room now client_id db =
    (ok client_id, record db { calls = db.calls ++ call_row call_id client_id room now ∷ [] })

-- the database work at the start of `entrypoint`: the client's key, if the caller has a number
unfoldable pub start_call : ℕ → Text → ℕ → Option Text → Exec Db (Option ℕ)
start_call call_id room now none = add_call call_id room now none
start_call call_id room now (some phone_number) = do
  client ← get_or_create_client phone_number
  add_call call_id room now (some client.id)

-- LiveKit's API, as `_transfer_to_human` uses it: whether the room is listed, the identity of the
-- first SIP participant if there is one, and the transfer.
pub record Livekit : Type 0 where
  pub list_rooms : Text → Result Bool
  pub first_sip_participant : Text → Result (Option Text)
  pub transfer : Text → Text → Text → Result (Unit {0})

-- How a transfer ended, by what is logged of it.
pub data Transfer : Type 0 where
  not_configured room_not_found no_sip_participant transferred failed : Transfer

abbrev pub transfer_ended : Result (Unit {0}) → Transfer
transfer_ended (ok _) = Transfer.transferred
transfer_ended (err e) = Transfer.failed

abbrev pub transfer_participant : Livekit → Text → Text → Result (Option Text) → Transfer
transfer_participant api room number (ok none) = Transfer.no_sip_participant
transfer_participant api room number (ok (some identity)) =
    transfer_ended (api.transfer room identity (codes "tel:" ++ number))
transfer_participant api room number (err e) = Transfer.failed

abbrev pub transfer_in_room : Livekit → Text → Text → Result Bool → Transfer
transfer_in_room api room number (ok true) =
    transfer_participant api room number (api.first_sip_participant room)
transfer_in_room api room number (ok false) = Transfer.room_not_found
transfer_in_room api room number (err e) = Transfer.failed

-- `_transfer_to_human`
unfoldable pub transfer_to_human : Livekit → Text → Option Text → Transfer
transfer_to_human api room none = Transfer.not_configured
transfer_to_human api room (some number) = transfer_in_room api room number (api.list_rooms room)
