-- ===== src/Crm.antt =====
-- src/openvoice/crm/service.py: the caller's record, found by phone number or created.
mod Tests
use open_voice.Base.{
  ℕ, suc, length, ◌≤◌, ◌≡◌, ◌≢◌, refl, sym, ap, subst, ◌∙◌, ◌⊎◌, inl, inr, Bool, true, false,
  Option, none, some, List, [], ◌∷◌, ◌++◌, arith, Bool-cases, ◌==◌, leb, if◌then◌else◌, keep, any,
  take, All, All-append,
}
use open_voice.Base.Text.{Text, codes, text_eq, text_eq_refl, text_eq→eq}
use open_voice.Base.Result.{Error, Result, ok, err, Exec}
use open_voice.Db.{Client, Call, Db, insert_client}

-- `select(Client).where(Client.phone_number == phone_number)`
abbrev pub with_phone : Text → List Client → List Client
with_phone phone_number cs = keep (λ (c : Client). text_eq c.phone_number phone_number) cs

-- `Client(phone_number=phone_number)`
abbrev pub new_client : ℕ → Text → Client
new_client id phone_number = record {
  id = id;
  phone_number = phone_number;
  full_name = none;
  email = none;
  notes = none;
}

abbrev pub create_client : Client → Exec Db Client
create_client c db = elim (insert_client c db) [ ok db' ↦ (ok c, db') | err e ↦ (err e, db) ]

-- `scalar_one_or_none`, and what follows it
abbrev pub one_or_create : List Client → Text → Exec Db Client
one_or_create [] phone_number db = create_client (new_client db.next_id phone_number) db
one_or_create (c ∷ []) phone_number db = (ok c, db)
one_or_create (c ∷ d ∷ cs) phone_number db = (err (Error.other (codes "MultipleResultsFound")), db)

-- `get_or_create_client`
unfoldable pub get_or_create_client : Text → Exec Db Client
get_or_create_client phone_number db =
    one_or_create (with_phone phone_number db.clients) phone_number db

abbrev pub insert_by_newest : Call → List Call → List Call
insert_by_newest c [] = c ∷ []
insert_by_newest c (d ∷ cs) =
    if leb d.started_at c.started_at then c ∷ d ∷ cs else d ∷ insert_by_newest c cs

abbrev pub order_by_newest : List Call → List Call
order_by_newest [] = []
order_by_newest (c ∷ cs) = insert_by_newest c (order_by_newest cs)

abbrev pub is_call_of : ℕ → Call → Bool
is_call_of client_id c = elim c.client_id [ none ↦ false | some id ↦ id == client_id ]

-- `get_call_history`
unfoldable pub get_call_history : ℕ → ℕ → List Call → List Call
get_call_history client_id limit calls =
    take limit (order_by_newest (keep (is_call_of client_id) calls))

-- The unique constraint of the table: no two clients have one phone number.
abbrev pub UniquePhones : List Client → Type 0
UniquePhones [] = Unit
UniquePhones (c ∷ cs) =
    All (λ (d : Client). text_eq d.phone_number c.phone_number ≡ false) cs × UniquePhones cs

none_with :
    (p : Text) (cs : List Client)
    → All (λ (d : Client). text_eq d.phone_number p ≡ false) cs
    → with_phone p cs ≡ []
none_with p [] h = refl
none_with p (c ∷ cs) h = ground (arith, none_with p cs h.1)

any_with :
    (p : Text) (cs : List Client)
    → with_phone p cs ≡ []
    → any (λ (other : Client). text_eq other.phone_number p) cs ≡ false
any_with p [] h = refl
any_with p (c ∷ cs) h = ground (arith, any_with p cs)

with_phone_added :
    (p : Text) (cs : List Client) (c : Client)
    → with_phone p cs ≡ []
    → text_eq c.phone_number p ≡ true
    → with_phone p (cs ++ c ∷ []) ≡ c ∷ []
with_phone_added p [] c h e = ground arith
with_phone_added p (d ∷ cs) c h e = ground (arith, with_phone_added p cs c)

-- At most one client has a phone number.
one_with :
    (p : Text) (cs : List Client)
    → UniquePhones cs
    → (with_phone p cs ≡ []) ⊎ ((c : Client) × (with_phone p cs ≡ c ∷ []))
one_with p [] u = inl refl
one_with p (c ∷ cs) u = elim (Bool-cases (text_eq c.phone_number p)) [
  | inl same ↦ inr (
    c,
    rw same (ap (λ r. c ∷ r) (none_with p cs (same_phone (text_eq→eq c.phone_number p same) u.0))),
  )
  | inr other ↦ rw other (one_with p cs u.1)
]
  where
    same_phone :
        c.phone_number ≡ p
        → All (λ (d : Client). text_eq d.phone_number c.phone_number ≡ false) cs
        → All (λ (d : Client). text_eq d.phone_number p ≡ false) cs
    same_phone e h = subst (λ q. All (λ (d : Client). text_eq d.phone_number q ≡ false) cs) e h

text_eq_comm : (x y : Text) → text_eq x y ≡ text_eq y x
text_eq_comm [] [] = refl
text_eq_comm [] (y ∷ ys) = refl
text_eq_comm (x ∷ xs) [] = refl
text_eq_comm (x ∷ xs) (y ∷ ys) = ground (arith, text_eq_comm xs ys)

UniquePhones-append_one :
    (cs : List Client) (c : Client)
    → UniquePhones cs
    → with_phone c.phone_number cs ≡ []
    → UniquePhones (cs ++ c ∷ [])
UniquePhones-append_one [] c u h = (tt, tt)
UniquePhones-append_one (d ∷ cs) c u h = (
  All-append (λ (e : Client). text_eq e.phone_number d.phone_number ≡ false) cs (c ∷ []) u.0
      (ground (arith, text_eq_comm c.phone_number d.phone_number), tt),
  UniquePhones-append_one cs c u.1 (ground arith),
)

abbrev pub created_db : Text → Db → Db
created_db p db = record db {
  clients = db.clients ++ new_client db.next_id p ∷ [];
  next_id = suc db.next_id;
}

known_lem :
    (p : Text) (db : Db) (c : Client)
    → with_phone p db.clients ≡ c ∷ []
    → get_or_create_client p db ≡ (ok c, db)
unfolding get_or_create_client
known_lem p db c h = ap (λ cs. one_or_create cs p db) h

created_lem :
    (p : Text) (db : Db)
    → length p ≤ 32
    → with_phone p db.clients ≡ []
    → get_or_create_client p db ≡ (ok (new_client db.next_id p), created_db p db)
unfolding get_or_create_client insert_client
created_lem p db fits h =
    ap (λ cs. one_or_create cs p db) h ∙ ground (arith, any_with p db.clients h)

-- What a lookup that succeeds gives: a client with that number, in a database in which the number is
-- still unique and the next lookup finds the same client and changes nothing.
pub record Found (p : Text) (result : Result Client × Db) : Type 0 where
  pub client : Client
  pub returned : result.0 ≡ ok client
  pub phone : text_eq client.phone_number p ≡ true
  pub unique : UniquePhones result.1.clients
  pub again : get_or_create_client p result.1 ≡ (ok client, result.1)

with_phone-phone :
    (p : Text) (cs : List Client) (c : Client)
    → with_phone p cs ≡ c ∷ []
    → text_eq c.phone_number p ≡ true
with_phone-phone p [] c h = cc
with_phone-phone p (d ∷ cs) c h = elim (Bool-cases (text_eq d.phone_number p)) [
  | inl same ↦ ground arith
  | inr other ↦ ground (arith, with_phone-phone p cs c)
]

-- In a database where no two clients have one phone number, `get_or_create_client` with a number of at most 32
-- characters never raises: it gives a client with the number, keeps the numbers unique, and the next call with the number
-- gives the same client and creates no other.
pub get_or_create_client-Found :
    (p : Text) (db : Db)
    → length p ≤ 32
    → UniquePhones db.clients
    → Found p (get_or_create_client p db)
get_or_create_client-Found p db fits u = elim (one_with p db.clients u) [
  | inl fresh ↦ subst (Found p) (sym (created_lem p db fits fresh)) (record {
    client = new_client db.next_id p;
    returned = refl;
    phone = text_eq_refl p;
    unique = UniquePhones-append_one db.clients (new_client db.next_id p) u fresh;
    again =
        known_lem p (created_db p db) (new_client db.next_id p)
          (with_phone_added p db.clients (new_client db.next_id p) fresh (text_eq_refl p));
  })
  | inr (c, h) ↦ subst (Found p) (sym (known_lem p db c h)) (record {
    client = c;
    returned = refl;
    phone = with_phone-phone p db.clients c h;
    unique = u;
    again = known_lem p db c h;
  })
]
