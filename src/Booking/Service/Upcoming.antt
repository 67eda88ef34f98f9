-- ===== src/Booking/Service/Upcoming.antt =====
-- `list_upcoming_appointments` of src/openvoice/booking/service.py: what is in the list, and its order.
use open_voice.Base.{
  ℕ, ◌≡◌, ◌≢◌, refl, Bool, true, false, not, ◌++◌, ◌≤◌, inl, inr, ◌&&◌, List, [], ◌∷◌, arith,
  Bool-cases, leb, keep, All,
}
use mathlib.Core.List.{Perm, perm_middle}
use mathlib.Core.List.Perm
use open_voice.Db.{Appointment, AppointmentStatus, is_cancelled}
use open_voice.Booking.Service.{is_active_for, insert_by_start, order_by_start, list_upcoming}

abbrev pub StartsFrom : ℕ → List Appointment → Type 0
StartsFrom n rows = All (λ (a : Appointment). n ≤ a.starts_at) rows

abbrev pub SoonestFirst : List Appointment → Type 0
SoonestFirst [] = Unit
SoonestFirst (a ∷ rows) = StartsFrom a.starts_at rows × SoonestFirst rows

StartsFrom-le : (m n : ℕ) (rows : List Appointment) → m ≤ n → StartsFrom n rows → StartsFrom m rows
StartsFrom-le m n [] le h = tt
StartsFrom-le m n (a ∷ rows) le h = (omega (arith, h.0), StartsFrom-le m n rows le h.1)

StartsFrom-insert_by_start :
    (n : ℕ) (a : Appointment) (rows : List Appointment)
    → n ≤ a.starts_at
    → StartsFrom n rows
    → StartsFrom n (insert_by_start a rows)
StartsFrom-insert_by_start n a [] le h = (le, tt)
StartsFrom-insert_by_start n a (b ∷ rows) le h = elim (Bool-cases (leb a.starts_at b.starts_at)) [
  | inl first ↦ rw first (le, h)
  | inr later ↦ rw later (h.0, StartsFrom-insert_by_start n a rows le h.1)
]

insert_by_start-SoonestFirst :
    (a : Appointment) (rows : List Appointment)
    → SoonestFirst rows
    → SoonestFirst (insert_by_start a rows)
insert_by_start-SoonestFirst a [] h = (tt, tt)
insert_by_start-SoonestFirst a (b ∷ rows) h = elim (Bool-cases (leb a.starts_at b.starts_at)) [
  | inl first ↦
      rw first ((ground arith, StartsFrom-le a.starts_at b.starts_at rows (ground arith) h.0), h)
  | inr later ↦ rw later (
    StartsFrom-insert_by_start b.starts_at a rows (ground arith) h.0,
    insert_by_start-SoonestFirst a rows h.1,
  )
]

order_by_start-SoonestFirst : (rows : List Appointment) → SoonestFirst (order_by_start rows)
order_by_start-SoonestFirst [] = tt
order_by_start-SoonestFirst (a ∷ rows) =
    insert_by_start-SoonestFirst a (order_by_start rows) (order_by_start-SoonestFirst rows)

insert_by_start-Perm :
    (a : Appointment) (rows : List Appointment) → Perm (insert_by_start a rows) (a ∷ rows)
insert_by_start-Perm a [] = Perm.refl _
insert_by_start-Perm a (b ∷ rows) = elim (Bool-cases (leb a.starts_at b.starts_at)) [
  | inl first ↦ rw first (Perm.refl _)
  | inr later ↦ rw later (Perm.trans (Perm.cons b (insert_by_start-Perm a rows)) (Perm.swap _ _ _))
]

order_by_start-Perm : (rows : List Appointment) → Perm (order_by_start rows) rows
order_by_start-Perm [] = Perm.nil
order_by_start-Perm (a ∷ rows) =
    Perm.trans (insert_by_start-Perm a (order_by_start rows))
      (Perm.cons a (order_by_start-Perm rows))

-- An appointment that the client still has from `now` on: it is the client's, it is not cancelled and it starts at
-- `now` or later.
abbrev pub IsUpcoming : ℕ → ℕ → Appointment → Type 0
IsUpcoming client_id now a =
    (a.client_id ≡ client_id) × (a.status ≢ AppointmentStatus.cancelled) × (now ≤ a.starts_at)

abbrev selected : ℕ → ℕ → Appointment → Bool
selected client_id now a = is_active_for client_id a && leb now a.starts_at

cancelled_lem :
    (status : AppointmentStatus)
    → is_cancelled status ≡ false
    → status ≢ AppointmentStatus.cancelled
cancelled_lem AppointmentStatus.cancelled h k = cc
cancelled_lem AppointmentStatus.scheduled h k = cc
cancelled_lem AppointmentStatus.confirmed h k = cc
cancelled_lem AppointmentStatus.rescheduled h k = cc
cancelled_lem AppointmentStatus.completed h k = cc

selected-IsUpcoming :
    (client_id now : ℕ) (a : Appointment)
    → selected client_id now a ≡ true
    → IsUpcoming client_id now a
selected-IsUpcoming client_id now a h =
    (ground arith, cancelled_lem a.status (ground arith), ground arith)

active_lem :
    (status : AppointmentStatus)
    → status ≢ AppointmentStatus.cancelled
    → is_cancelled status ≡ false
active_lem AppointmentStatus.cancelled h = absurd (h refl)
active_lem AppointmentStatus.scheduled h = refl
active_lem AppointmentStatus.confirmed h = refl
active_lem AppointmentStatus.rescheduled h = refl
active_lem AppointmentStatus.completed h = refl

IsUpcoming-selected :
    (client_id now : ℕ) (a : Appointment)
    → selected client_id now a ≡ false
    → ¬ IsUpcoming client_id now a
IsUpcoming-selected client_id now a h (own, active, ahead) = no (active_lem a.status active)
  where
    no : is_cancelled a.status ≡ false → ⊥
    no k = ground arith

keep-IsUpcoming :
    (client_id now : ℕ) (rows : List Appointment)
    → All (IsUpcoming client_id now) (keep (selected client_id now) rows)
keep-IsUpcoming client_id now [] = tt
keep-IsUpcoming client_id now (a ∷ rows) = elim (Bool-cases (selected client_id now a)) [
  | inl yes' ↦
      rw yes' (selected-IsUpcoming client_id now a yes', keep-IsUpcoming client_id now rows)
  | inr no' ↦ rw no' (keep-IsUpcoming client_id now rows)
]

-- the rows that are left out
abbrev pub left_out : ℕ → ℕ → List Appointment → List Appointment
left_out client_id now rows = keep (λ a. not (selected client_id now a)) rows

left_out-IsUpcoming :
    (client_id now : ℕ) (rows : List Appointment)
    → All (λ a. ¬ IsUpcoming client_id now a) (left_out client_id now rows)
left_out-IsUpcoming client_id now [] = tt
left_out-IsUpcoming client_id now (a ∷ rows) = elim (Bool-cases (selected client_id now a)) [
  | inl in' ↦ rw in' (left_out-IsUpcoming client_id now rows)
  | inr out ↦
      rw out (IsUpcoming-selected client_id now a out, left_out-IsUpcoming client_id now rows)
]

-- Keeping the rows of one kind and those of the other loses no row.
parted-Perm :
    (p : Appointment → Bool) (rows : List Appointment)
    → Perm (keep p rows ++ keep (λ a. not (p a)) rows) rows
parted-Perm p [] = Perm.nil
parted-Perm p (a ∷ rows) = elim (Bool-cases (p a)) [
  | inl in' ↦ rw in' (Perm.cons a (parted-Perm p rows))
  | inr out ↦ rw out (Perm.trans (perm_middle (keep p rows) _) (Perm.cons a (parted-Perm p rows)))
]

All-insert_by_start :
    (P : Appointment → Type 0) (a : Appointment) (rows : List Appointment)
    → P a
    → All P rows
    → All P (insert_by_start a rows)
All-insert_by_start P a [] p h = (p, tt)
All-insert_by_start P a (b ∷ rows) p h = elim (Bool-cases (leb a.starts_at b.starts_at)) [
  | inl first ↦ rw first (p, h)
  | inr later ↦ rw later (h.0, All-insert_by_start P a rows p h.1)
]

All-order_by_start :
    (P : Appointment → Type 0) (rows : List Appointment) → All P rows → All P (order_by_start rows)
All-order_by_start P [] h = tt
All-order_by_start P (a ∷ rows) h =
    All-insert_by_start P a (order_by_start rows) h.0 (All-order_by_start P rows h.1)

-- The upcoming appointments are ordered by their start; every one is the client's, not cancelled and starts at `now` or
-- later; and with other rows, none of which is such, they make up the table, each as often as the table has it.
pub list_upcoming-ordered :
    (client_id now : ℕ) (rows : List Appointment)
    → SoonestFirst (list_upcoming client_id now rows)
      × All (IsUpcoming client_id now) (list_upcoming client_id now rows)
      × ((others : List Appointment) × All (λ a. ¬ IsUpcoming client_id now a) others
          × Perm (list_upcoming client_id now rows ++ others) rows)
unfolding list_upcoming
list_upcoming-ordered client_id now rows =
    let kept = keep (selected client_id now) rows in
    (
      order_by_start-SoonestFirst kept,
      All-order_by_start (IsUpcoming client_id now) kept (keep-IsUpcoming client_id now rows),
      (
        left_out client_id now rows,
        left_out-IsUpcoming client_id now rows,
        Perm.trans (Perm.append_right (left_out client_id now rows) (order_by_start-Perm kept))
            (parted-Perm (selected client_id now) rows),
      ),
    )
