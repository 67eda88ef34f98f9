-- ===== src/Booking/Service/Returned.antt =====
-- What the result of `book_appointment` (src/openvoice/booking/service.py) says once a row is stored.
use open_voice.Base.{◌≡◌, ◌⊎◌, inl, inr}
use open_voice.Base.Result.{Error, Result, ok, err}
use open_voice.Db.{Appointment}

-- it returned: what it returned is the row
pub returned_row :
    {P Q : Error → Type 0} (a b : Appointment)
    → (ok a ≡ ok b) ⊎ ((e : Error) × (ok a ≡ err e) × P e × Q e)
    → a ≡ b
returned_row a b (inl h) = cc
returned_row a b (inr (e, h, p, q)) = cc

-- it raised: the confirmation did
pub raised-confirmation :
    {P : Error → Type 0} (e : Error) (b : Appointment) (q : Result Appointment)
    (r : Result (Unit {0}))
    → (q ≡ ok b) ⊎ ((x : Error) × (q ≡ err x) × P x × (r ≡ err x))
    → q ≡ err e
    → r ≡ ok tt
    → ⊥
raised-confirmation e b q r (inl h) k l = cc
raised-confirmation e b q r (inr (x, h, p, is)) k l = cc
