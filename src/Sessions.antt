-- ===== src/Sessions.antt =====
-- framework/src/Sessions/session.c: sessions in a hash table of 1024 chains. The clock readings and
-- the bytes that a new identifier is made of are arguments; allocation succeeds.
pub mod Id
pub mod Values
pub mod Store
mod Examples
use cweb.Base.{
  ℕ, zero, suc, ◌+◌, ◌-◌, ◌*◌, ◌/◌, ◌%◌, ◌^◌, Bool, true, false, List, [], ◌∷◌, ◌++◌, Option, none,
  some, ltb, leb, ◌==◌, if◌then◌else◌, length, Bytes, bytes_eq,
}

abbrev store_size : ℕ
store_size = 1024

abbrev pub max_session_data : ℕ
max_session_data = 16

-- Thirty minutes, in seconds.
abbrev pub session_lifetime : ℕ
session_lifetime = 60 * 30

pub record SessionData : Type 0 where
  pub key : Bytes
  pub value : Bytes

pub record Session : Type 0 where
  pub id : Bytes
  pub expires : ℕ
  pub values : List SessionData

-- The chain of each bucket.
abbrev pub SessionStore : Type 0
SessionStore = ℕ → List Session

-- A plain char is signed: a byte from 128 on is added as a negative number.
sign_extend : ℕ → ℕ
sign_extend c = if ltb c 128 then c else c + (2 ^ 64 - 256)

-- hash = ((hash << 5) + hash) + c, in an unsigned long of 64 bits
hash_from : ℕ → Bytes → ℕ
unfolding sign_extend
hash_from h [] = h
hash_from h (c ∷ cs) = hash_from ((h * 33 + sign_extend c) % 2 ^ 64) cs

pub hash : Bytes → ℕ
unfolding hash_from
hash = hash_from 5381

pub bucket : Bytes → ℕ
unfolding hash
bucket id = hash id % store_size

-- A digit of "%02x".
unfoldable pub hex_digit : ℕ → ℕ
hex_digit n = if leb n 9 then n + b'0' else n - 10 + b'a'

pub generate_session_id : Bytes → Bytes
unfolding hex_digit
generate_session_id [] = []
generate_session_id (b ∷ bs) = hex_digit (b / 16) ∷ hex_digit (b % 16) ∷ generate_session_id bs

pub session_store_init : SessionStore
session_store_init i = []

-- The walk along a chain: the first session with the identifier ends it, found or expired. `checked`
-- is the time read by the comparison, `stamped` the one read for the new expiry.
pub refresh_chain : Bytes → ℕ → ℕ → List Session → Option (List Session × Session)
refresh_chain id checked stamped [] = none
refresh_chain id checked stamped (s ∷ ss) =
    let rest = refresh_chain id checked stamped ss in
    let fresh = record s { expires = stamped + session_lifetime } in
    if bytes_eq s.id id
    then (if ltb checked s.expires then some (fresh ∷ ss, fresh) else none)
    else elim rest [ none ↦ none | some (ss', t) ↦ some (s ∷ ss', t) ]

-- The new chain of one bucket.
abbrev pub set_bucket : SessionStore → ℕ → List Session → SessionStore
set_bucket st i chain j = if i == j then chain else st j

-- The part behind the search: a session at the head of its chain.
pub create_session : Bytes → ℕ → SessionStore → SessionStore × Session
unfolding bucket generate_session_id
create_session random stamped st =
    let id = generate_session_id random in
    let s : Session = record { id = id; expires = stamped + session_lifetime; values = [] } in
    (set_bucket st (bucket id) (s ∷ st (bucket id)), s)

pub get_or_create_session : Option Bytes → Bytes → ℕ → ℕ → SessionStore → SessionStore × Session
unfolding refresh_chain create_session
get_or_create_session none random checked stamped st = create_session random stamped st
get_or_create_session (some id) random checked stamped st =
    elim (refresh_chain id checked stamped (st (bucket id))) [
      | some (chain, s) ↦ (set_bucket st (bucket id) chain, s)
      | none ↦ create_session random stamped st
    ]

pub find_value : Bytes → List SessionData → Option Bytes
find_value key [] = none
find_value key (d ∷ ds) = if bytes_eq d.key key then some d.value else find_value key ds

pub get_session_value : Bytes → Session → Option Bytes
unfolding find_value
get_session_value key s = find_value key s.values

-- The loop that updates an existing key.
pub update_value : Bytes → Bytes → List SessionData → Option (List SessionData)
update_value key value [] = none
update_value key value (d ∷ ds) =
    let rest = update_value key value ds in
    if bytes_eq d.key key
    then some (record d { value = value } ∷ ds)
    else elim rest [ none ↦ none | some ds' ↦ some (d ∷ ds') ]

pub set_session_value : Bytes → Bytes → Session → Session
unfolding update_value
set_session_value key value s = elim (update_value key value s.values) [
  | some ds ↦ record s { values = ds }
  | none ↦
      if ltb (length s.values) max_session_data
      then record s { values = s.values ++ record { key = key; value = value } ∷ [] }
      else s
]
