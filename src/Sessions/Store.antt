-- ===== src/Sessions/Store.antt =====
-- The table of sessions: chains by hash, and what a request finds under its identifier.
use cweb.Base.{
  ℕ, ◌+◌, ◌≤◌, ◌<◌, ◌≡◌, ◌≢◌, ◌⊎◌, inl, inr, refl, ap, ◌∙◌, List, [], ◌∷◌, ◌++◌, Option, none, some,
  arith, ltb, ltb→lt, lt→ltb, ◌==◌, ==_iff, subst, All, if◌then◌else◌, Bytes, bytes_eq,
  bytes_eq_iff, ne_of_bytes_eq, Bool-cases,
}
use cweb.Sessions.{
  Session, SessionStore, session_lifetime, bucket, generate_session_id, refresh_chain, set_bucket,
  create_session, get_or_create_session,
}

-- Every session stands in the chain that its identifier hashes to.
abbrev pub IsHashed : SessionStore → Type 0
IsHashed st = (i : ℕ) → All (λ s. bucket s.id ≡ i) (st i)

-- The session with its new expiry.
abbrev pub refreshed : ℕ → Session → Session
refreshed stamped s = record s { expires = stamped + session_lifetime }

-- The first session of a chain with the identifier.
pub record FirstWith (id : Bytes) (chain : List Session) (s : Session) : Type 0 where
  pub before : List Session
  pub after : List Session
  pub splits : chain ≡ before ++ s ∷ after
  pub skipped : All (λ t. t.id ≢ id) before
  pub same_id : s.id ≡ id

FirstWith-there :
    (id : Bytes) (t s : Session) (chain : List Session)
    → t.id ≢ id
    → FirstWith id chain s
    → FirstWith id (t ∷ chain) s
FirstWith-there id t s chain n f = record {
  before = t ∷ f.before;
  after = f.after;
  splits = ap (◌∷◌ t) f.splits;
  skipped = (n, f.skipped);
  same_id = f.same_id;
}

-- Nothing to refresh: no session has the identifier, or the first that has it has run out.
abbrev Missing : Bytes → ℕ → List Session → Type 0
Missing id checked chain =
    All (λ t. t.id ≢ id) chain ⊎ ((s : Session) × FirstWith id chain s × (s.expires ≤ checked))

module _ (id : Bytes) (checked stamped : ℕ) where
  refresh_at :
      (before after : List Session) (s : Session)
      → All (λ t. t.id ≢ id) before
      → s.id ≡ id
      → refresh_chain id checked stamped (before ++ s ∷ after) ≡ (
          if ltb checked s.expires
          then some (before ++ refreshed stamped s ∷ after, refreshed stamped s)
          else none)
  unfolding refresh_chain
  refresh_at [] after s n e = rw ((bytes_eq_iff s.id id).1 e)
  refresh_at (t ∷ before) after s n e =
      ground (arith, refresh_at before after s n.1 e, bytes_eq_iff t.id id, n.0)

  refresh_absent :
      (chain : List Session)
      → All (λ t. t.id ≢ id) chain
      → refresh_chain id checked stamped chain ≡ none
  unfolding refresh_chain
  refresh_absent [] n = refl
  refresh_absent (t ∷ chain) n = ground (arith, refresh_absent chain n.1, bytes_eq_iff t.id id, n.0)

  refresh_first :
      (chain : List Session) (s : Session)
      → (f : FirstWith id chain s) → checked < s.expires
      → refresh_chain id checked stamped chain
        ≡ some (f.before ++ refreshed stamped s ∷ f.after, refreshed stamped s)
  refresh_first chain s f h =
      ap (refresh_chain id checked stamped) f.splits
      ∙ refresh_at f.before f.after s f.skipped f.same_id
      ∙ rw (lt→ltb checked s.expires h)

  refresh-Missing :
      (chain : List Session)
      → Missing id checked chain
      → refresh_chain id checked stamped chain ≡ none
  refresh-Missing chain (inl absent) = refresh_absent chain absent
  refresh-Missing chain (inr (s, f, old)) =
      ap (refresh_chain id checked stamped) f.splits
      ∙ refresh_at f.before f.after s f.skipped f.same_id
      ∙ ground arith

  -- Along a chain either a session is found in time, or none is.
  walk_cases :
      (chain : List Session)
      → Missing id checked chain ⊎ ((s : Session) × FirstWith id chain s × (checked < s.expires))
  walk_cases [] = inl (inl tt)
  walk_cases (t ∷ chain) = elim (Bool-cases (bytes_eq t.id id)) [
    | inl y ↦
        let f : FirstWith id (t ∷ chain) t = record {
          before = [];
          after = chain;
          splits = refl;
          skipped = tt;
          same_id = (bytes_eq_iff t.id id).0 y;
        } in
        elim (Bool-cases (ltb checked t.expires)) [
          | inl lt ↦ inr (t, f, ltb→lt checked t.expires lt)
          | inr ge ↦ inl (inr (t, f, ground arith))
        ]
    | inr n ↦
        let ne = ne_of_bytes_eq t.id id n in
        elim (walk_cases chain) [
          | inl (inl absent) ↦ inl (inl (ne, absent))
          | inl (inr (s, f, old)) ↦ inl (inr (s, FirstWith-there id t s chain ne f, old))
          | inr (s, f, young) ↦ inr (s, FirstWith-there id t s chain ne f, young)
        ]
  ]

-- What a request with identifier `id` gets.
pub data Answer (id random : Bytes) (checked stamped : ℕ) (st : SessionStore)
    (r : SessionStore × Session) : Type 0 where
  found :
      (s : Session) (f : FirstWith id (st (bucket id)) s)
      → checked < s.expires
      → r ≡ (
        set_bucket st (bucket id) (f.before ++ refreshed stamped s ∷ f.after),
        refreshed stamped s,
      )
      → Answer id random checked stamped st r
  created :
      Missing id checked (st (bucket id))
      → r ≡ create_session random stamped st
      → Answer id random checked stamped st r

pub get_or_create_session-Answer :
    (id random : Bytes) (checked stamped : ℕ) (st : SessionStore)
    → Answer id random checked stamped st
        (get_or_create_session (some id) random checked stamped st)
unfolding get_or_create_session
get_or_create_session-Answer id random checked stamped st =
    elim (walk_cases id checked stamped (st (bucket id))) [
      | inl m ↦
          created m
            (rw (refresh-Missing id checked stamped (st (bucket id)) m, get_or_create_session))
      | inr (s, f, young) ↦
          found s f young (
            rw (refresh_first id checked stamped (st (bucket id)) s f young, get_or_create_session))
    ]

set_bucket-IsHashed :
    (st : SessionStore) (i : ℕ) (chain : List Session)
    → IsHashed st
    → All (λ s. bucket s.id ≡ i) chain
    → IsHashed (set_bucket st i chain)
set_bucket-IsHashed st i chain h k j = elim (Bool-cases (i == j)) [
  | inl y ↦ rw y (subst (λ n. All (λ s. bucket s.id ≡ n) chain) ((==_iff i j).0 y) k)
  | inr n ↦ rw n (h j)
]

All-swap :
    (P : Session → Type 0) (before after : List Session) (s t : Session)
    → (P s → P t)
    → All P (before ++ s ∷ after)
    → All P (before ++ t ∷ after)
All-swap P [] after s t f h = (f h.0, h.1)
All-swap P (x ∷ before) after s t f h = (h.0, All-swap P before after s t f h.1)

create_session-IsHashed :
    (random : Bytes) (stamped : ℕ) (st : SessionStore)
    → IsHashed st
    → IsHashed (create_session random stamped st).0
unfolding create_session
create_session-IsHashed random stamped st h =
    set_bucket-IsHashed st (bucket (generate_session_id random)) _ h
      (refl, h (bucket (generate_session_id random)))

-- A request leaves every session in the chain that its identifier hashes to, with or without an
-- identifier, found or created.
pub get_or_create_session-IsHashed :
    (id : Option Bytes) (random : Bytes) (checked stamped : ℕ) (st : SessionStore)
    → IsHashed st
    → IsHashed (get_or_create_session id random checked stamped st).0
get_or_create_session-IsHashed none random checked stamped st h =
    unfold get_or_create_session in create_session-IsHashed random stamped st h
get_or_create_session-IsHashed (some id) random checked stamped st h =
    elim (get_or_create_session-Answer id random checked stamped st) [
      | created m e ↦ rw e (create_session-IsHashed random stamped st h)
      | found s f young e ↦ rw e (
          set_bucket-IsHashed st (bucket id) _ h (
            All-swap (λ t. bucket t.id ≡ bucket id) f.before f.after s (refreshed stamped s)
              (λ x. x) (subst (All (λ t. bucket t.id ≡ bucket id)) f.splits (h (bucket id)))))
    ]

created_head :
    (random : Bytes) (stamped : ℕ) (st : SessionStore)
    → let (st', s) = create_session random stamped st in
      (s.expires ≡ stamped + session_lifetime) × FirstWith s.id (st' (bucket s.id)) s
unfolding create_session
created_head random stamped st = (
  refl,
  record {
    before = [];
    after = st (bucket (generate_session_id random));
    splits = rw ((==_iff (bucket (generate_session_id random)) _).1 refl);
    skipped = tt;
    same_id = refl;
  },
)

found_first :
    (id random : Bytes) (checked stamped : ℕ) (st : SessionStore) (s : Session)
    → FirstWith id (st (bucket id)) s
    → checked < s.expires
    → (get_or_create_session (some id) random checked stamped st).1 ≡ refreshed stamped s
unfolding get_or_create_session
found_first id random checked stamped st s f h =
    rw (refresh_first id checked stamped (st (bucket id)) s f h, get_or_create_session)

create_none :
    (random : Bytes) (checked stamped : ℕ) (st : SessionStore)
    → get_or_create_session none random checked stamped st ≡ create_session random stamped st
unfolding get_or_create_session
create_none random checked stamped st = refl

-- A session that was made is found by its identifier until thirty minutes have passed, and its term
-- starts anew.
pub create-get_session :
    (random later : Bytes) (made checked stamped : ℕ) (st : SessionStore)
    → checked < made + session_lifetime
    → let (st', s) = get_or_create_session none random 0 made st in
      (get_or_create_session (some s.id) later checked stamped st').1 ≡ refreshed stamped s
create-get_session random later made checked stamped st h =
    let (term, first) = created_head random made st in
    rw create_none (
      found_first (create_session random made st).1.id later checked stamped
        (create_session random made st).0 (create_session random made st).1 first
        (omega (arith, term)))
