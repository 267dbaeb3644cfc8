-- ===== src/Sessions/Values.antt =====
-- The values that a session holds.
use cweb.Base.{
  ◌≤◌, ◌<◌, ◌≡◌, ◌≢◌, ◌⊎◌, inl, inr, refl, List, [], ◌∷◌, ◌++◌, none, some, arith, lt→ltb, length,
  length-append, if◌then◌else◌, Bytes, bytes_eq, bytes_eq_iff, Option-cases,
}
use cweb.Sessions.{
  Session, SessionData, max_session_data, find_value, get_session_value, update_value,
  set_session_value,
}

find-update :
    (key value other : Bytes) (ds ds' : List SessionData)
    → update_value key value ds ≡ some ds'
    → find_value other ds' ≡ (if bytes_eq key other then some value else find_value other ds)
unfolding find_value update_value
find-update key value other [] ds' e = cc
find-update key value other (d ∷ ds) ds' e = elim (Option-cases (update_value key value ds)) [
  | inl n ↦ ground (arith, bytes_eq_iff d.key key)
  | inr (t, f) ↦ ground (
    arith,
    bytes_eq_iff d.key key,
    bytes_eq_iff d.key other,
    bytes_eq_iff key other,
    find-update key value other ds t f,
  )
]

-- No entry has the key, if the updating loop finds none.
find_absent :
    (key value : Bytes) (ds : List SessionData)
    → update_value key value ds ≡ none
    → find_value key ds ≡ none
unfolding find_value update_value
find_absent key value [] e = refl
find_absent key value (d ∷ ds) e = ground (arith, find_absent key value ds)

update_absent :
    (key value : Bytes) (ds : List SessionData)
    → find_value key ds ≡ none
    → update_value key value ds ≡ none
unfolding find_value update_value
update_absent key value [] e = refl
update_absent key value (d ∷ ds) e = ground (arith, update_absent key value ds)

find_at_end :
    (key value other : Bytes) (ds : List SessionData)
    → find_value key ds ≡ none
    → find_value other (ds ++ record { key = key; value = value } ∷ [])
      ≡ (if bytes_eq key other then some value else find_value other ds)
unfolding find_value
find_at_end key value other [] e = refl
find_at_end key value other (d ∷ ds) e = ground (
  arith,
  bytes_eq_iff d.key key,
  bytes_eq_iff d.key other,
  bytes_eq_iff key other,
  find_at_end key value other ds,
)

-- A session takes a value for the key: it has one already, or room for one more.
abbrev CanStore : Bytes → Session → Type 0
CanStore key s = (get_session_value key s ≢ none) ⊎ (length s.values < max_session_data)

-- After a value is set, its key has it and every other key has what it had, provided the session
-- has the key already or holds fewer than sixteen.
pub get-set_session_value :
    (key value other : Bytes) (s : Session)
    → CanStore key s
    → get_session_value other (set_session_value key value s)
      ≡ (if bytes_eq key other then some value else get_session_value other s)
unfolding get_session_value set_session_value
get-set_session_value key value other s room =
    elim (Option-cases (update_value key value s.values)) [
      | inr (ds, e) ↦ rw (e, set_session_value) (find-update key value other s.values ds e)
      | inl e ↦ elim room [
        | inl has ↦ absurd (has (find_absent key value s.values e))
        | inr lt ↦
            rw (e, set_session_value)
              (rw (lt→ltb (length s.values) max_session_data lt)
                (find_at_end key value other s.values (find_absent key value s.values e)))
      ]
    ]

-- A full session without the key is left as it is: the value is dropped.
set_session_value_full :
    (key value : Bytes) (s : Session)
    → get_session_value key s ≡ none
    → max_session_data ≤ length s.values
    → set_session_value key value s ≡ s
unfolding get_session_value set_session_value
set_session_value_full key value s absent full =
    rw (update_absent key value s.values absent, set_session_value) (ground arith)

length-update_value :
    (key value : Bytes) (ds ds' : List SessionData)
    → update_value key value ds ≡ some ds'
    → length ds' ≡ length ds
unfolding update_value
length-update_value key value [] ds' e = cc
length-update_value key value (d ∷ ds) ds' e = elim (Option-cases (update_value key value ds)) [
  | inl n ↦ ground arith
  | inr (t, f) ↦ ground (arith, length-update_value key value ds t f)
]

-- A session never holds more than the sixteen entries of its array.
set_session_value_bounds :
    (key value : Bytes) (s : Session)
    → length s.values ≤ max_session_data
    → length (set_session_value key value s).values ≤ max_session_data
unfolding set_session_value
set_session_value_bounds key value s h = elim (Option-cases (update_value key value s.values)) [
  | inr (ds, e) ↦
      rw (e, set_session_value) (omega (arith, length-update_value key value s.values ds e))
  | inl e ↦
      rw (e, set_session_value)
        (ground (arith, length-append s.values (record { key = key; value = value } ∷ [])))
]
