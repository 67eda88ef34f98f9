-- ===== src/Tools/Guards/Rows.antt =====
-- The rows of the other clients, and lookups by key: what the ownership check of
-- src/openvoice/agent/tools/booking.py rests on.
use open_voice.Base.{
  ℕ, ◌≡◌, refl, inl, inr, not, some, List, [], ◌∷◌, ◌++◌, arith, Bool-cases, keep, ◌==◌,
}
use open_voice.Base.Result.{Result, ok, err, pure, ◌>>=◌}
use open_voice.Db.{Appointment, Client, find_client, find_appointment, replace_row}
use open_voice.Booking.Service.{World}

-- the rows of the other clients
abbrev pub others : ℕ → List Appointment → List Appointment
others client_id rows = keep (λ a. not (a.client_id == client_id)) rows

-- The rows of the other clients are the same ones in the same order.
abbrev pub KeepsOthers : ℕ → World → World → Type 0
KeepsOthers client_id before after =
    others client_id after.db.appointments ≡ others client_id before.db.appointments

pub others_append_own :
    (client_id : ℕ) (rows : List Appointment) (a : Appointment)
    → a.client_id ≡ client_id
    → others client_id (rows ++ a ∷ []) ≡ others client_id rows
others_append_own client_id [] a h = ground arith
others_append_own client_id (b ∷ rows) a h = ground (arith, others_append_own client_id rows a h)

-- The row that a key finds may be replaced by another one of the same client.
pub others_replace_own :
    (client_id : ℕ) (rows : List Appointment) (a b : Appointment)
    → find_appointment b.id rows ≡ some a
    → a.client_id ≡ client_id
    → b.client_id ≡ client_id
    → others client_id (replace_row b rows) ≡ others client_id rows
others_replace_own client_id [] a b f h k = refl
others_replace_own client_id (r ∷ rows) a b f h k = elim (Bool-cases (r.id == b.id)) [
  | inl same ↦ ground arith
  | inr other ↦ ground (arith, others_replace_own client_id rows a b)
]

pub find_client_id :
    (id : ℕ) (cs : List Client) (c : Client) → find_client id cs ≡ some c → c.id ≡ id
find_client_id id [] c h = cc
find_client_id id (d ∷ cs) c h = ground (arith, find_client_id id cs c)

pub find_appointment_id :
    (id : ℕ) (rows : List Appointment) (a : Appointment)
    → find_appointment id rows ≡ some a
    → a.id ≡ id
find_appointment_id id [] a h = cc
find_appointment_id id (b ∷ rows) a h = ground (arith, find_appointment_id id rows a)

pub then_pure :
    {A B : Type 0} (w : World) (p : Result A × World) (f : A → B)
    → (((λ (_ : World). p) >>= λ a. pure (f a)) w).1 ≡ p.1
then_pure w (ok a, v) f = refl
then_pure w (err e, v) f = refl
