-- ===== src/Api/Schedule.antt =====
-- What the appointments promise: a schedule of entries, without the calendar, the messages, the database and
-- whatever else src/openvoice/booking/service.py keeps in a row; and the operations of the code, read as operations
-- on it.
pub mod Refines
pub mod Runs
use open_voice.Base.{
  ℕ, suc, Bool, true, false, not, ◌&&◌, Option, none, some, List, [], ◌∷◌, ◌++◌, map, ◌==◌, ltb,
  if◌then◌else◌,
}
use open_voice.Base.Text.{Text}
use open_voice.Base.Result.{Error, Result, ok, err}
use open_voice.Db.{Appointment, Client, is_cancelled}
use open_voice.Booking.Service.{Service, World}
use open_voice.Booking.Service.Actions.{book_appointment}
use open_voice.Api.{Response, replied, failed, server_error, respond}
use open_voice.Api.Appointments.{delete_appointment, patch_appointment}

pub record Entry : Type 0 where
  pub key : ℕ
  pub client : ℕ
  pub start : ℕ
  pub end : ℕ
  pub active : Bool

pub record Schedule : Type 0 where
  pub entries : List Entry
  pub next_key : ℕ

-- What a caller of the service may ask for.
pub data Command : Type 0 where
  -- for a client, from a start to an end, in a call or none, with notes or none
  book : Client → ℕ → ℕ → Option ℕ → Option Text → Command
  cancel : ℕ → Command
  move : ℕ → ℕ → ℕ → Command

pub data Outcome : Type 0 where
  -- the key of the entry
  settled : ℕ → Outcome
  released : Outcome
  clash : Outcome
  missing : Outcome
  -- an end that is not after the start
  invalid : Outcome
  unavailable : Outcome

abbrev pub first_overlap : ℕ → ℕ → ℕ → List Entry → Option Entry
first_overlap client start end [] = none
first_overlap client start end (e ∷ es) =
    if (e.client == client && e.active) && (ltb e.start end && ltb start e.end)
    then some e
    else first_overlap client start end es

abbrev pub entry_at : ℕ → List Entry → Option Entry
entry_at key [] = none
entry_at key (e ∷ es) = if e.key == key then some e else entry_at key es

abbrev pub update_at : ℕ → (Entry → Entry) → List Entry → List Entry
update_at key f [] = []
update_at key f (e ∷ es) = if e.key == key then f e ∷ es else e ∷ update_at key f es

abbrev pub reserve : Option Entry → ℕ → ℕ → ℕ → Schedule → Outcome × Schedule
reserve (some e) client start end s =
    (if e.start == start && e.end == end then settled e.key else clash, s)
reserve none client start end s =
    if ltb start end
    then (
      settled s.next_key,
      record {
        entries =
            s.entries
            ++ record { key = s.next_key; client = client; start = start; end = end; active = true }
              ∷ [];
        next_key = suc s.next_key;
      },
    )
    else (invalid, s)

abbrev pub release : Option Entry → ℕ → Schedule → Outcome × Schedule
release none key s = (missing, s)
release (some e) key s =
    (released, record s { entries = update_at key (λ e. record e { active = false }) s.entries })

abbrev pub relocate : Option Entry → ℕ → ℕ → ℕ → Schedule → Outcome × Schedule
relocate none key start end s = (missing, s)
relocate (some e) key start end s =
    if ltb start end
    then (
      settled key,
      record s {
        entries =
            update_at key (λ e. record e { start = start; end = end; active = true }) s.entries;
      },
    )
    else (invalid, s)

-- One command on the schedule.
unfoldable pub step : Command → Schedule → Outcome × Schedule
step (book c start end call_id notes) s =
    reserve (first_overlap c.id start end s.entries) c.id start end s
step (cancel key) s = release (entry_at key s.entries) key s
step (move key start end) s = relocate (entry_at key s.entries) key start end s

-- An answer of the API, as an outcome.
abbrev pub status_outcome : ℕ → Outcome
status_outcome status =
    if status == 404 then missing else if status == 409 then clash else unavailable

abbrev pub appointment_outcome : Response Appointment → Outcome
appointment_outcome (replied status a) = settled a.id
appointment_outcome (failed status why) = status_outcome status
appointment_outcome (server_error Error.integrity_error) = invalid
appointment_outcome (server_error e) = unavailable

abbrev pub removal_outcome : Response (Unit {0}) → Outcome
removal_outcome (replied status _) = released
removal_outcome (failed status why) = status_outcome status
removal_outcome (server_error Error.integrity_error) = invalid
removal_outcome (server_error e) = unavailable

-- One command, by the code.
unfoldable pub perform : Service → Command → World → Outcome × World
perform s (book c start end call_id notes) w =
    let (r, w') = book_appointment s c start end call_id notes w in
    (appointment_outcome (respond 201 r), w')
perform s (cancel key) w = let (r, w') = delete_appointment (ok s) key w in (removal_outcome r, w')
perform s (move key start end) w =
    let (r, w') = patch_appointment (ok s) key (record { starts_at = start; ends_at = end }) w in
    (appointment_outcome r, w')

-- What a row is on the schedule.
abbrev pub view : Appointment → Entry
view a = record {
  key = a.id;
  client = a.client_id;
  start = a.starts_at;
  end = a.ends_at;
  active = not (is_cancelled a.status);
}

abbrev pub schedule_of : World → Schedule
schedule_of w = record { entries = map view w.db.appointments; next_key = w.db.next_id }

-- A list of commands, with the outcome of each.
unfoldable pub run_commands :
    {S : Type 0} → (Command → S → Outcome × S) → List Command → S → List Outcome × S
run_commands act [] s = ([], s)
run_commands act (c ∷ cs) s =
    let (o, s') = act c s in let (os, s'') = run_commands act cs s' in (o ∷ os, s'')
