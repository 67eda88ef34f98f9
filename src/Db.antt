-- ===== src/Db.antt =====
-- src/openvoice/db/models: the rows that the program writes, and the session operations that it
-- uses on them. A table is the list of its rows, the oldest first. A primary key is a
-- number: `uuid4` is taken to give a key that the table has not had.
use open_voice.Base.{
  ℕ, suc, length, leb, not, Bool, true, false, Option, none, some, List, [], ◌∷◌, ◌++◌, ◌==◌, ltb,
  if◌then◌else◌, any,
}
use open_voice.Base.Text.{Text, codes, text_eq}
use open_voice.Base.Result.{Error, Result, ok, err}

pub data AppointmentStatus : Type 0 where
  scheduled confirmed cancelled rescheduled completed : AppointmentStatus

pub record Appointment : Type 0 where
  pub id : ℕ
  pub client_id : ℕ
  pub call_id : Option ℕ
  pub starts_at : ℕ
  pub ends_at : ℕ
  pub status : AppointmentStatus
  pub calendar_event_id : Option Text
  pub notes : Option Text

pub record Client : Type 0 where
  pub id : ℕ
  pub phone_number : Text
  pub full_name : Option Text
  pub email : Option Text
  pub notes : Option Text

pub data CallDirection : Type 0 where
  inbound outbound : CallDirection

pub data CallStatus : Type 0 where
  in_progress completed transferred_to_human failed no_answer : CallStatus

pub record Call : Type 0 where
  pub id : ℕ
  pub client_id : Option ℕ
  pub livekit_room_name : Text
  pub direction : CallDirection
  pub status : CallStatus
  pub started_at : ℕ
  pub ended_at : Option ℕ
  pub summary : Option Text

pub data SpeakerRole : Type 0 where
  caller agent system : SpeakerRole

pub record CallTranscript : Type 0 where
  pub call_id : ℕ
  pub sequence : ℕ
  pub role : SpeakerRole
  pub text : Text

pub record Db : Type 0 where
  pub clients : List Client
  pub appointments : List Appointment
  pub calls : List Call
  pub transcripts : List CallTranscript
  -- the next primary key
  pub next_id : ℕ

abbrev pub is_cancelled : AppointmentStatus → Bool
is_cancelled AppointmentStatus.cancelled = true
is_cancelled _ = false

-- `session.get(Client, id)`, `session.get(Appointment, id)`, `session.get(Call, id)`
abbrev pub find_client : ℕ → List Client → Option Client
find_client id [] = none
find_client id (c ∷ cs) = if c.id == id then some c else find_client id cs

abbrev pub find_appointment : ℕ → List Appointment → Option Appointment
find_appointment id [] = none
find_appointment id (a ∷ rows) = if a.id == id then some a else find_appointment id rows

abbrev pub find_call : ℕ → List Call → Option Call
find_call id [] = none
find_call id (c ∷ cs) = if c.id == id then some c else find_call id cs

-- `CheckConstraint("ends_at > starts_at")`
abbrev pub ends_after_starts : Appointment → Bool
ends_after_starts a = ltb a.starts_at a.ends_at

-- `add` and `commit` of a new appointment; a violated constraint rolls the transaction back
unfoldable pub insert_appointment : Appointment → Db → Result Db
insert_appointment a db =
    if ends_after_starts a
    then ok (record db { appointments = db.appointments ++ a ∷ []; next_id = suc db.next_id })
    else err Error.integrity_error

-- the row with the key of `a`, overwritten
abbrev pub replace_row : Appointment → List Appointment → List Appointment
replace_row a [] = []
replace_row a (b ∷ rows) = if b.id == a.id then a ∷ rows else b ∷ replace_row a rows

-- `commit` of a changed appointment
unfoldable pub update_appointment : Appointment → Db → Result Db
update_appointment a db =
    if ends_after_starts a
    then ok (record db { appointments = replace_row a db.appointments })
    else err Error.integrity_error

-- `String(32)` of `Client.phone_number`
abbrev pub fits_phone_column : Text → Bool
fits_phone_column phone_number = leb (length phone_number) 32

-- `add` and `commit` of a new client: its phone number fits the column and is unique
unfoldable pub insert_client : Client → Db → Result Db
insert_client c db =
    if not (fits_phone_column c.phone_number)
    then err (Error.other (codes "DBAPIError"))
    else if any (λ other. text_eq other.phone_number c.phone_number) db.clients
    then err Error.integrity_error
    else ok (record db { clients = db.clients ++ c ∷ []; next_id = suc db.next_id })
