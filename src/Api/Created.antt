-- ===== src/Api/Created.antt =====
-- `create_appointment` of src/openvoice/api/routers/appointments.py, with the service that `get_booking_service` builds: what
-- a client of the API may conclude from the answer.
use open_voice.Base.{
  ℕ, ◌≡◌, refl, sym, ap, subst, ◌∙◌, inl, inr, Bool, true, false, not, ◌&&◌, Option, none, some,
  List, [], ◌∷◌, ◌++◌, arith, Bool-cases, ◌==◌, any,
}
use open_voice.Base.Text.{Text, text_eq, text_eq→eq}
use open_voice.Base.Result.{Error, Result, ok, err, Exec, then_ok, ◌>>=◌}
use open_voice.Db.{Appointment, Client, Db, fits_phone_column, insert_client}
use open_voice.Config.{Settings}
use open_voice.Config.Factories.{
  Packages, GoogleConfig, TwilioConfig, ResendConfig, get_calendar_provider, get_sms_provider,
  get_email_provider,
}
use open_voice.Crm.{with_phone, new_client, create_client, one_or_create, get_or_create_client}
use open_voice.Booking.Service.{Service, World, find_overlapping, is_active_for, overlaps}
use open_voice.Booking.Service.Actions.{conflict, book_appointment}
use open_voice.Booking.Service.Bookings.{
  Books, repeated, refused, not_created, not_stored, stored, new_row, book_appointment-Books,
}
use open_voice.Booking.Service.Returned.{returned_row}
use open_voice.Services.{
  Clients, optional_provider, service_of, service_with, get_booking_service, map_option,
}
use open_voice.Notifications.{Http, twilio_sender, resend_sender}
use open_voice.Notifications.Attempts.{IsRetryer}
use open_voice.Notifications.Atomic.{RaisesOnlyHttpErrors, book_appointment_atomic}
use open_voice.Api.{Response, replied, handle_exception, respond}
use open_voice.Api.Appointments.{AppointmentCreateRequest, book_for_phone, create_appointment}

abbrev pub Listed : {A : Type 0} → A → List A → Type 0
Listed {A} a rows = (before : List A) × (after : List A) × (rows ≡ before ++ a ∷ after)

overlapping-Listed :
    (client_id start end : ℕ) (rows : List Appointment) (a : Appointment)
    → find_overlapping client_id start end rows ≡ some a
    → Listed a rows × (a.client_id ≡ client_id)
unfolding find_overlapping
overlapping-Listed client_id start end [] a h = cc
overlapping-Listed client_id start end (b ∷ rows) a h =
    elim (Bool-cases (is_active_for client_id b && overlaps start end b)) [
      | inl here ↦ let same = first here in (([], rows, ap (λ x. x ∷ rows) same), ground arith)
      | inr on ↦
          let ((before, after, is), own) =
            overlapping-Listed client_id start end rows a (ground arith) in
          ((b ∷ before, after, ap (λ r. b ∷ r) is), own)
    ]
  where
    first : (is_active_for client_id b && overlaps start end b) ≡ true → b ≡ a
    first here = ground arith

kept_phone :
    (phone_number : Text) (cs : List Client) (c : Client) (rest : List Client)
    → with_phone phone_number cs ≡ c ∷ rest
    → Listed c cs × (c.phone_number ≡ phone_number)
kept_phone phone_number [] c rest h = cc
kept_phone phone_number (d ∷ cs) c rest h =
    elim (Bool-cases (text_eq d.phone_number phone_number)) [
      | inl same ↦ (
        ([], cs, ap (λ x. x ∷ cs) (first same)),
        ap (λ (x : Client). x.phone_number) (sym (first same))
            ∙ text_eq→eq d.phone_number phone_number same,
      )
      | inr other ↦
          let ((before, after, is), phone) = kept_phone phone_number cs c rest (ground arith) in
          ((d ∷ before, after, ap (λ r. d ∷ r) is), phone)
    ]
  where
    first : text_eq d.phone_number phone_number ≡ true → d ≡ c
    first same = ground arith

-- `get_or_create_client` gives a row of the number, and leaves the appointments alone.
abbrev Found : Text → Db → Result Client × Db → Type 0
Found phone_number db (ok c, db') =
    (Listed c db'.clients × (c.phone_number ≡ phone_number)) × (db'.appointments ≡ db.appointments)
Found phone_number db (err e, db') = db'.appointments ≡ db.appointments

inserted_lem : (c : Client) (db : Db) → Found c.phone_number db (create_client c db)
unfolding insert_client
inserted_lem c db =
    insert_case (not (fits_phone_column c.phone_number))
      (any (λ other. text_eq other.phone_number c.phone_number) db.clients) refl refl
  where
    insert_case :
        (long taken : Bool)
        → not (fits_phone_column c.phone_number) ≡ long
        → any (λ (other : Client). text_eq other.phone_number c.phone_number) db.clients ≡ taken
        → Found c.phone_number db (create_client c db)
    insert_case true taken l h = rw (l, create_client, insert_client) refl
    insert_case false true l h = rw (l, h, create_client, insert_client) refl
    insert_case false false l h =
        rw (l, h, create_client, insert_client) (((db.clients, [], refl), refl), refl)

found_lem :
    (found : List Client) (phone_number : Text) (db : Db)
    → with_phone phone_number db.clients ≡ found
    → Found phone_number db (one_or_create found phone_number db)
found_lem [] phone_number db h = inserted_lem (new_client db.next_id phone_number) db
found_lem (c ∷ []) phone_number db h = (kept_phone phone_number db.clients c [] h, refl)
found_lem (c ∷ d ∷ cs) phone_number db h = refl

get_or_create-Found :
    (phone_number : Text) (db : Db) → Found phone_number db (get_or_create_client phone_number db)
unfolding get_or_create_client
get_or_create-Found phone_number db =
    found_lem (with_phone phone_number db.clients) phone_number db refl

-- What a built service sends with.
abbrev Sends : Clients → Service → Type 0
Sends clients s =
    (twilio : Option TwilioConfig) × (resend : Option ResendConfig) × (s.sms
      ≡ map_option clients.twilio twilio)
    × (s.email ≡ map_option clients.resend resend)

module _ (clients : Clients) (settings : Settings) where
  with-Sends :
      (google : GoogleConfig) (twilio : Result (Option TwilioConfig))
      (resend : Result (Option ResendConfig)) (s : Service)
      → (then_ok twilio λ t. then_ok resend λ r. ok (service_of clients settings google t r)) ≡ ok s
      → Sends clients s
  with-Sends google (ok t) (ok r) s h = subst (Sends clients) (made h) (t, r, refl, refl)
    where
      made :
          ok (service_of clients settings google t r) ≡ ok s
          → service_of clients settings google t r ≡ s
      made h = cc
  with-Sends google (ok t) (err e) s h = cc
  with-Sends google (err e) resend s h = cc

  behind-Sends :
      (google : Result GoogleConfig) (s : Service)
      → then_ok google (service_with clients settings) ≡ ok s
      → Sends clients s
  behind-Sends (ok google) s h =
      with-Sends google (optional_provider (get_sms_provider settings))
        (optional_provider (get_email_provider settings)) s h
  behind-Sends (err e) s h = cc

module _ (payload : AppointmentCreateRequest) (w : World) where
  -- The answer is the appointment that was asked for, which is in the table, or it is an error and the table is as
  -- it was.
  pub data Tells : Response Appointment × World → Type 0 where
    created :
        (a : Appointment) (c : Client) (after : World)
        → Listed a after.db.appointments
        → a.starts_at ≡ payload.starts_at
        → a.ends_at ≡ payload.ends_at
        → Listed c after.db.clients
        → a.client_id ≡ c.id
        → c.phone_number ≡ payload.phone_number
        → Tells (replied 201 a, after)
    told_error :
        (e : Error) (after : World)
        → after.db.appointments ≡ w.db.appointments
        → Tells (handle_exception e, after)

  module _ (http : Http) (retries : IsRetryer http) (only : RaisesOnlyHttpErrors http) (s : Service)
      (twilio : Option TwilioConfig) (resend : Option ResendConfig)
      (sms : s.sms ≡ map_option (twilio_sender http) twilio)
      (email : s.email ≡ map_option (resend_sender http) resend) where
    abbrev booking_of : Client → Exec World Appointment
    booking_of c = book_appointment s c payload.starts_at payload.ends_at none payload.notes

    -- the times of the appointment that is there already
    same_times :
        (a : Appointment)
        → (a.starts_at == payload.starts_at && a.ends_at == payload.ends_at) ≡ true
        → (a.starts_at ≡ payload.starts_at) × (a.ends_at ≡ payload.ends_at)
    same_times a h = (ground arith, ground arith)

    booked-Tells :
        (c : Client) (v : World) (p : Result Appointment × World)
        → Listed c v.db.clients × (c.phone_number ≡ payload.phone_number)
        → v.db.appointments ≡ w.db.appointments
        → Books s c payload.starts_at payload.ends_at none payload.notes v p
        → ((e : Error) → p.0 ≡ err e → p.1.db.appointments ≡ v.db.appointments)
        → Tells (respond 201 p.0, p.1)
    booked-Tells c v _ phone rows (repeated a f t) atomic =
        let (listed, own) =
          overlapping-Listed c.id payload.starts_at payload.ends_at v.db.appointments a f in
        let (start, end) = same_times a t in created a c v listed start end phone.0 own phone.1
    booked-Tells c v _ phone rows (refused a f t) atomic = told_error (conflict s a) v rows
    booked-Tells c v _ phone rows (not_created e f k) atomic = told_error e _ rows
    booked-Tells c v _ phone rows (not_stored i f k le) atomic =
        told_error Error.integrity_error _ rows
    booked-Tells c v _ phone rows (stored i (ok a) after f k lt same_db log res) atomic =
        let row = new_row s c payload.starts_at payload.ends_at none payload.notes v i in
        subst (λ x. Tells (replied 201 x, after)) (sym (returned_row a row res))
          (created row c after (v.db.appointments, [], ap (λ (d : Db). d.appointments) same_db) refl
            refl (subst (Listed c) (sym (ap (λ (d : Db). d.clients) same_db)) phone.0) refl phone.1)
    booked-Tells c v _ phone rows (stored i (err e) after f k lt same_db log res) atomic =
        told_error e after (atomic e refl ∙ rows)

    then_book :
        (p : Result Client × Db)
        → Found payload.phone_number w.db p
        → let q = ((λ (_ : World). (p.0, record w { db = p.1 })) >>= booking_of) w in
          Tells (respond 201 q.0, q.1)
    then_book (err e, db) rows = told_error e _ rows
    then_book (ok c, db) (phone, rows) =
        let v = record w { db = db } in
        booked-Tells c v _ phone rows
          (book_appointment-Books s c payload.starts_at payload.ends_at none payload.notes v)
          (λ e h.
            book_appointment_atomic http retries only s twilio resend c payload.starts_at
              payload.ends_at none payload.notes v e sms email h)

    made-Tells : Tells (create_appointment (ok s) payload w)
    unfolding create_appointment book_for_phone
    made-Tells =
        then_book (get_or_create_client payload.phone_number w.db)
          (get_or_create-Found payload.phone_number w.db)

  -- What a client of the API may conclude, with Twilio and Resend as the senders, an HTTP client that raises only its own
  -- errors and a retryer of tenacity's kind: a 201 carries an appointment that is in the table, with the
  -- times of the request and the key of a client of the table of clients with its phone number; every other answer is that of an error, and
  -- the table of appointments is as it was.
  pub create_appointment-Tells :
      (packages : Packages) (clients : Clients) (settings : Settings) (http : Http)
      → IsRetryer http
      → RaisesOnlyHttpErrors http
      → clients.twilio ≡ twilio_sender http
      → clients.resend ≡ resend_sender http
      → Tells (create_appointment (get_booking_service packages clients settings) payload w)
  unfolding create_appointment get_booking_service
  create_appointment-Tells packages clients settings http retries only twilio_is resend_is =
      by_service (get_booking_service packages clients settings) refl
    where
      by_service :
          (r : Result Service)
          → then_ok (get_calendar_provider packages settings) (service_with clients settings) ≡ r
          → Tells (create_appointment r payload w)
      by_service (err e) h = told_error e w refl
      by_service (ok s) h =
          let (t, r, sms, email) =
            behind-Sends clients settings (get_calendar_provider packages settings) s h in
          made-Tells http retries only s t r (sms ∙ ap (λ f. map_option f t) twilio_is)
            (email ∙ ap (λ f. map_option f r) resend_is)
