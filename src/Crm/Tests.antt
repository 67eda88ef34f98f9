-- ===== src/Crm/Tests.antt =====
-- An instance of the theorem about callers' records.
use open_voice.Base.{none, [], ◌∷◌, arith}
use open_voice.Base.Text.{codes}
use open_voice.Db.{Client, Db}
use open_voice.Crm.{UniquePhones, Found, get_or_create_client, get_or_create_client-Found}

abbrev known : Client
known = record { id = 1; phone_number = codes "+1"; full_name = none; email = none; notes = none }

abbrev db : Db
db = record { clients = known ∷ []; appointments = []; calls = []; transcripts = []; next_id = 2 }

db-UniquePhones : UniquePhones db.clients
db-UniquePhones = (tt, tt)

get_or_create_client-Found_example : Found (codes "+2") (get_or_create_client (codes "+2") db)
get_or_create_client-Found_example =
    get_or_create_client-Found (codes "+2") db (omega arith) db-UniquePhones
