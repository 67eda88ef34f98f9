-- ===== src/Google/Busy.antt =====
-- What src/openvoice/calendar/providers/google_calendar.py reads of Google's answers.
use open_voice.Base.{ℕ, ◌≡◌, refl, List, [], ◌∷◌}
use open_voice.Base.Text.{codes, text_eq_refl}
use open_voice.Base.Json.{Json, Items, Fields}
use open_voice.Base.Result.{ok}
use open_voice.Config.Factories.{GoogleConfig}
use open_voice.Booking.{TimeSlot}
use open_voice.Booking.Service.{CalendarCall}
use open_voice.Google.{GoogleClient, object_of, slot_of, slots_of, list_busy_slots, query_body}

module _ (client : GoogleClient) (config : GoogleConfig) where
  -- Google's answer to a query of one calendar, for these busy slots
  abbrev pub slot_answer : TimeSlot → Json
  slot_answer t = Json.object (
      Fields.field (codes "start") (Json.string (client.isoformat t.start))
        (Fields.field (codes "end") (Json.string (client.isoformat t.end)) Fields.end))

  abbrev pub slots_json : List TimeSlot → Items
  slots_json [] = Items.nil
  slots_json (t ∷ slots) = Items.cons (slot_answer t) (slots_json slots)

  abbrev pub answer_of : List TimeSlot → Json
  answer_of slots =
      object_of (codes "calendars")
        (object_of config.calendar_id (object_of (codes "busy") (Json.array (slots_json slots))))

  abbrev pub ReadsItsFormat : Type 0
  ReadsItsFormat = (t : ℕ) → client.fromisoformat (client.isoformat t) ≡ ok t

  slot_lem : ReadsItsFormat → (t : TimeSlot) → slot_of client config (slot_answer t) ≡ ok t
  slot_lem reads t = rw (reads t.start, reads t.end) refl

  slots_lem :
      ReadsItsFormat
      → (slots : List TimeSlot) → slots_of client config (slots_json slots) ≡ ok slots
  unfolding slots_of
  slots_lem reads [] = refl
  slots_lem reads (t ∷ slots) = rw (slot_lem reads t, slots_lem reads slots) refl

  -- The busy slots that Google answers with are the ones that the booking service gets, in their order, if
  -- `fromisoformat` reads what is written for an instant.
  pub list_busy_slots-answer_of :
      (log : List CalendarCall) (start end : ℕ) (slots : List TimeSlot)
      → ReadsItsFormat
      → client.freebusy_query log (query_body client config start end) ≡ ok (answer_of slots)
      → list_busy_slots client config log start end ≡ ok slots
  unfolding list_busy_slots
  list_busy_slots-answer_of log start end slots reads h =
      rw (h, text_eq_refl config.calendar_id) (slots_lem reads slots)
