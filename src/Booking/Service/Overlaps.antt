-- ===== src/Booking/Service/Overlaps.antt =====
-- The double-booking guard of src/openvoice/booking/service.py: no client has two active appointments at
-- one time.
use open_voice.Base.{
  ◌≢◌, ◌⊎◌, refl, sym, ap, subst, ◌∙◌, ◌≡◌, ◌<◌, Bool, true, false, not, ◌&&◌, none, some, List, [],
  ◌∷◌, ◌++◌, arith, Bool-cases, ◌==◌, inl, inr, All, All-append,
}
use open_voice.Db.{Appointment, is_cancelled, replace_row}
use open_voice.Booking.Service.{is_active_for, overlaps, find_overlapping}

-- Both are active, of one client, and share an instant.
abbrev pub clash : Appointment → Appointment → Bool
clash a b =
    is_active_for a.client_id b && (not (is_cancelled a.status) && overlaps a.starts_at a.ends_at b)

abbrev pub Compatible : Appointment → Appointment → Type 0
Compatible a b = clash a b ≡ false

-- No two rows clash.
abbrev pub NoClash : List Appointment → Type 0
NoClash [] = Unit
NoClash (a ∷ rows) = All (Compatible a) rows × NoClash rows

pub clash_comm : (a b : Appointment) → clash a b ≡ clash b a
clash_comm a b = ground arith

pub find_overlapping-none :
    (a : Appointment) (rows : List Appointment)
    → find_overlapping a.client_id a.starts_at a.ends_at rows ≡ none
    → All (λ b. Compatible b a) rows
unfolding find_overlapping
find_overlapping-none a [] h = tt
find_overlapping-none a (b ∷ rows) h = (ground arith, find_overlapping-none a rows (ground arith))

pub NoClash-append_one :
    (a : Appointment) (rows : List Appointment)
    → All (λ b. Compatible b a) rows
    → NoClash rows
    → NoClash (rows ++ a ∷ [])
NoClash-append_one a [] h n = (tt, tt)
NoClash-append_one a (b ∷ rows) h n =
    (All-append (Compatible b) rows (a ∷ []) n.0 (h.0, tt), NoClash-append_one a rows h.1 n.1)

-- A row that clashes with nothing may take the place of another.
pub All-replace_row :
    (P : Appointment → Type 0) (a : Appointment) (rows : List Appointment)
    → P a
    → All P rows
    → All P (replace_row a rows)
All-replace_row P a [] p h = tt
All-replace_row P a (b ∷ rows) p h = elim (Bool-cases (b.id == a.id)) [
  | inl same ↦ rw same (p, h.1)
  | inr other ↦ rw other (h.0, All-replace_row P a rows p h.1)
]

All-cancelled :
    (a : Appointment) (rows : List Appointment)
    → is_cancelled a.status ≡ true
    → All (Compatible a) rows
All-cancelled a [] c = tt
All-cancelled a (b ∷ rows) c = (ground arith, All-cancelled a rows c)

pub NoClash-replace_row :
    (a : Appointment) (rows : List Appointment)
    → is_cancelled a.status ≡ true
    → NoClash rows
    → NoClash (replace_row a rows)
NoClash-replace_row a [] c n = tt
NoClash-replace_row a (b ∷ rows) c n = elim (Bool-cases (b.id == a.id)) [
  | inl same ↦ rw same (All-cancelled a rows c, n.1)
  | inr other ↦
      rw other
        (All-replace_row (Compatible b) a rows (ground arith) n.0, NoClash-replace_row a rows c n.1)
]

-- Looking for the overlap of a row that was just added finds that row.
pub find_overlapping_added :
    (a : Appointment) (rows : List Appointment)
    → find_overlapping a.client_id a.starts_at a.ends_at rows ≡ none
    → is_cancelled a.status ≡ false
    → a.starts_at < a.ends_at
    → find_overlapping a.client_id a.starts_at a.ends_at (rows ++ a ∷ []) ≡ some a
unfolding find_overlapping
find_overlapping_added a [] h active lt = ground arith
find_overlapping_added a (b ∷ rows) h active lt = ground (arith, find_overlapping_added a rows)

-- `a` is one of the rows.
abbrev pub Among : Appointment → List Appointment → Type 0
Among a [] = ⊥
Among a (b ∷ rows) = (b ≡ a) ⊎ Among a rows

All-Among :
    (P : Appointment → Type 0) (a : Appointment) (rows : List Appointment)
    → All P rows
    → Among a rows
    → P a
All-Among P a [] h m = absurd m
All-Among P a (b ∷ rows) h (inl same) = subst P same h.0
All-Among P a (b ∷ rows) h (inr m) = All-Among P a rows h.1 m

-- Two rows of a table without clashes are one row, or they do not clash.
pub NoClash-Among :
    (a b : Appointment) (rows : List Appointment)
    → NoClash rows
    → Among a rows
    → Among b rows
    → (a ≡ b) ⊎ Compatible a b
NoClash-Among a b [] n l m = absurd l
NoClash-Among a b (c ∷ rows) n (inl x) (inl y) = inl (sym x ∙ y)
NoClash-Among a b (c ∷ rows) n (inl x) (inr m) =
    inr (All-Among (Compatible a) b rows (subst (λ d. All (Compatible d) rows) x n.0) m)
NoClash-Among a b (c ∷ rows) n (inr m) (inl y) = inr (
    clash_comm a b ∙ All-Among (Compatible b) a rows (subst (λ d. All (Compatible d) rows) y n.0) m)
NoClash-Among a b (c ∷ rows) n (inr l) (inr m) = NoClash-Among a b rows n.1 l m

-- The row that is overwritten is the new one, and a row with another key stays.
pub replaced-Among :
    (a new : Appointment) (rows : List Appointment)
    → new.id ≡ a.id
    → Among a rows
    → Among new (replace_row new rows)
replaced-Among a new [] k m = m
replaced-Among a new (c ∷ rows) k m = elim (Bool-cases (c.id == new.id)) [
  | inl same ↦ rw same (inl refl)
  | inr other ↦ rw other (inr (replaced-Among a new rows k (behind m other)))
]
  where
    not_same : c.id ≡ a.id → (c.id == new.id) ≡ false → ⊥
    not_same e other = ground arith

    behind : (c ≡ a) ⊎ Among a rows → (c.id == new.id) ≡ false → Among a rows
    behind (inl same) other = absurd (not_same (ap (λ (x : Appointment). x.id) same) other)
    behind (inr m) other = m

pub kept-Among :
    (b new : Appointment) (rows : List Appointment)
    → b.id ≢ new.id
    → Among b rows
    → Among b (replace_row new rows)
kept-Among b new [] ne m = m
kept-Among b new (c ∷ rows) ne m = elim (Bool-cases (c.id == new.id)) [
  | inl same ↦ rw same (inr (behind m same))
  | inr other ↦ rw other (on (kept-Among b new rows ne) m)
]
  where
    clash_of : c ≡ b → (c.id == new.id) ≡ true → b.id ≡ new.id
    clash_of e same = ground arith

    behind : (c ≡ b) ⊎ Among b rows → (c.id == new.id) ≡ true → Among b rows
    behind (inl is) same = absurd (ne (clash_of is same))
    behind (inr m) same = m

    on :
        (Among b rows → Among b (replace_row new rows))
        → (c ≡ b) ⊎ Among b rows
        → (c ≡ b) ⊎ Among b (replace_row new rows)
    on later (inl is) = inl is
    on later (inr m) = inr (later m)
