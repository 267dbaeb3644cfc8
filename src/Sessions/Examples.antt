-- ===== src/Sessions/Examples.antt =====
-- Runs of the session table, and instances of its theorems.
use cweb.Base.{◌≡◌, inr, refl, [], ◌∷◌, none, some, arith, if◌then◌else◌, codes, bytes_eq}
use cweb.Sessions.{
  Session, SessionData, SessionStore, hash, generate_session_id, session_store_init,
  get_or_create_session, get_session_value, set_session_value,
}
use cweb.Sessions.Values.{get-set_session_value}
use cweb.Sessions.Store.{IsHashed, refreshed, get_or_create_session-IsHashed, create-get_session}

id_run : generate_session_id (255 ∷ 10 ∷ 0 ∷ []) ≡ codes "ff0a00"
unfolding generate_session_id
id_run = refl

-- djb2 of "a": 5381 * 33 + 97
hash_run : hash (codes "a") ≡ 177670
unfolding hash
hash_run = refl

abbrev visitor : Session
visitor = record {
  id = codes "ff";
  expires = 1000;
  values = record { key = codes "cart"; value = codes "3" } ∷ [];
}

get-set_session_value_example :
    get_session_value (codes "cart") (set_session_value (codes "user") (codes "ben") visitor) ≡ (
      if bytes_eq (codes "user") (codes "cart")
      then some (codes "ben")
      else get_session_value (codes "cart") visitor)
get-set_session_value_example =
    get-set_session_value (codes "user") (codes "ben") (codes "cart") visitor (inr (omega arith))

-- A session with the same entry sixteen times.
abbrev full_visitor : Session
full_visitor =
    let d : SessionData = record { key = codes "k"; value = [] } in
    record visitor { values = d ∷ d ∷ d ∷ d ∷ d ∷ d ∷ d ∷ d ∷ d ∷ d ∷ d ∷ d ∷ d ∷ d ∷ d ∷ d ∷ [] }

full_no_user : get_session_value (codes "user") full_visitor ≡ none
unfolding get_session_value bytes_eq
full_no_user = refl

abbrev empty_store : SessionStore
empty_store = session_store_init

empty-IsHashed : IsHashed empty_store
unfolding session_store_init
empty-IsHashed i = tt

get_or_create_session-IsHashed_example :
    IsHashed (get_or_create_session (some (codes "ff")) (1 ∷ []) 10 11 empty_store).0
get_or_create_session-IsHashed_example =
    get_or_create_session-IsHashed (some (codes "ff")) (1 ∷ []) 10 11 empty_store empty-IsHashed

create-get_session_example :
    let (st', s) = get_or_create_session none (1 ∷ []) 0 100 empty_store in
    (get_or_create_session (some s.id) (2 ∷ []) 1899 1899 st').1 ≡ refreshed 1899 s
create-get_session_example =
    create-get_session (1 ∷ []) (2 ∷ []) 100 1899 1899 empty_store (omega arith)
