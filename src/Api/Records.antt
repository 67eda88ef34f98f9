-- ===== src/Api/Records.antt =====
-- src/openvoice/api/routers/clients.py and calls.py, with `get_call_with_transcript` of src/openvoice/crm/service.py.
use open_voice.Base.{ℕ, Option, none, some, List, [], ◌∷◌, ◌++◌, take, drop}
use open_voice.Base.Text.{codes}
use open_voice.Base.Time.{ℤ, pos}
use open_voice.Base.Result.{Error, Result, ok, err}
use open_voice.Db.{Client, Call, CallTranscript, Db, find_client, find_call}
use open_voice.Crm.{get_call_history}
use open_voice.Summary.{transcripts_of}
use open_voice.Api.{Response, replied, failed, respond}

-- the rows as they were added, the newest first
abbrev pub newest_first : List Client → List Client
newest_first [] = []
newest_first (c ∷ cs) = newest_first cs ++ c ∷ []

-- `limit(limit).offset(offset)`: the database refuses a negative number
abbrev pub page : ℤ → ℤ → List Client → Result (List Client)
page (pos limit) (pos offset) cs = ok (take limit (drop offset cs))
page limit offset cs = err (Error.other (codes "DBAPIError"))

-- `list_clients`
unfoldable pub list_clients : ℤ → ℤ → Db → Response (List Client)
list_clients limit offset db = respond 200 (page limit offset (newest_first db.clients))

abbrev pub client_found : Option Client → Response Client
client_found none = failed 404 (codes "Client not found")
client_found (some c) = replied 200 c

-- `get_client`
unfoldable pub get_client : ℕ → Db → Response Client
get_client client_id db = client_found (find_client client_id db.clients)

abbrev pub calls_found : Option Client → List Call → Response (List Call)
calls_found none calls = failed 404 (codes "Client not found")
calls_found (some c) calls = replied 200 calls

-- `get_client_calls`; `get_call_history` gives 50 calls at most by default
unfoldable pub get_client_calls : ℕ → Db → Response (List Call)
get_client_calls client_id db =
    calls_found (find_client client_id db.clients) (get_call_history client_id 50 db.calls)

-- `CallWithTranscriptOut`, of a call with its relationship loaded
pub record CallWithTranscript : Type 0 where
  pub call : Call
  pub transcripts : List CallTranscript

-- `get_call_with_transcript`
abbrev pub get_call_with_transcript : ℕ → Db → Option CallWithTranscript
get_call_with_transcript call_id db = elim (find_call call_id db.calls) [
  | none ↦ none
  | some c ↦ some (record { call = c; transcripts = transcripts_of call_id db.transcripts })
]

abbrev pub call_found : Option CallWithTranscript → Response CallWithTranscript
call_found none = failed 404 (codes "Call not found")
call_found (some c) = replied 200 c

-- `get_call`
unfoldable pub get_call : ℕ → Db → Response CallWithTranscript
get_call call_id db = call_found (get_call_with_transcript call_id db)
