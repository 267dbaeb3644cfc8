-- ===== src/Routing.antt =====
-- framework/src/Routing/routing.c: the table of routes, and the choice of a handler for a path. A
-- handler is a value of any type `H`; a route's path is never NULL.
pub mod Dispatch
pub mod Table
pub mod Register
mod Examples
use cweb.Base.{
  ℕ, suc, ◌+◌, ◌-◌, Bool, true, false, not, ◌&&◌, ◌||◌, List, [], ◌∷◌, ◌++◌, Option, none, some,
  ltb, if◌then◌else◌, length, take, drop, Bytes, strchr, bytes_eq,
}
use cweb.Logger.{LogContext, LogOutcome, exits, suppressed, printed, log_message, fatal}
use cweb.PathUtils.RouteBase.{get_route_base}

abbrev pub max_routes : ℕ
max_routes = 128

abbrev pub max_asset_functions : ℕ
max_asset_functions = 128

pub record Route (H : Type 0) : Type 0 where
  pub path : Bytes
  pub handler : H
  pub using_session : Bool
  pub has_dynamic_subpath : Bool
  pub has_dynamic_param : Bool

-- The module's static variables; `A` is the type of asset functions.
pub record Router (H A : Type 0) : Type 0 where
  pub routes : List (Route H)
  pub fallback_handler : Option H
  pub asset_functions : List A

-- What a call leaves: a state, or the end of the program.
pub data Outcome (S : Type 0) : Type 0 where
  continues : S → Outcome S
  ends : Outcome S

-- Behind LOG_FATAL.
abbrev pub after_fatal : {S : Type 0} → LogContext → S → Outcome S
after_fatal c s = elim (log_message c fatal) [
  | suppressed ↦ continues s
  | printed ↦ continues s
  | exits ↦ ends
]

module _ {H : Type 0} where
  -- The entry that `cweb_add_route` fills in.
  abbrev pub new_route : Bytes → H → Bool → Route H
  new_route path h session = record {
    path = path;
    handler = h;
    using_session = session;
    has_dynamic_subpath = false;
    has_dynamic_param = false;
  }

  -- The loops that look for the first route with a path and change that route alone.
  pub update_first : Bytes → (Route H → Route H) → List (Route H) → Option (List (Route H))
  update_first path change [] = none
  update_first path change (r ∷ rs) =
      let rest = update_first path change rs in
      if bytes_eq r.path path
      then some (change r ∷ rs)
      else elim rest [ none ↦ none | some rs' ↦ some (r ∷ rs') ]

module _ {H A : Type 0} where
  abbrev empty_router : Router H A
  empty_router = record { routes = []; fallback_handler = none; asset_functions = [] }

  abbrev pub with_routes : Router H A → Option (List (Route H)) → Router H A
  with_routes s none = s
  with_routes s (some rs) = record s { routes = rs }

  pub set_dynamic_subpath : Bytes → Bool → Router H A → Router H A
  set_dynamic_subpath path flag s =
      with_routes s (update_first path (λ r. record r { has_dynamic_subpath = flag }) s.routes)

  pub set_dynamic_param : Bytes → Bool → Router H A → Router H A
  set_dynamic_param path flag s =
      with_routes s (update_first path (λ r. record r { has_dynamic_param = flag }) s.routes)

  -- The flag is that the call returned 0.
  pub rewrite_route_path : Bytes → Bytes → Router H A → Router H A × Bool
  rewrite_route_path current new_path s =
      elim (update_first current (λ r. record r { path = new_path }) s.routes) [
        | none ↦ (s, false)
        | some rs ↦ (record s { routes = rs }, true)
      ]

  pub register_asset_function : LogContext → A → Router H A → Outcome (Router H A)
  register_asset_function c f s =
      if ltb (length s.asset_functions) max_asset_functions
      then continues (record s { asset_functions = s.asset_functions ++ f ∷ [] })
      else after_fatal c s

  pub set_fallback_handler : Option H → Router H A → Router H A
  set_fallback_handler h s = record s { fallback_handler = h }

  pub add_route : LogContext → Bytes → H → Bool → Router H A → Outcome (Router H A)
  add_route c path h session s =
      if ltb (length s.routes) max_routes
      then continues (record s { routes = s.routes ++ new_route path h session ∷ [] })
      else after_fatal c s

  pub clear_routes : Router H A → Router H A
  clear_routes s = record s { routes = []; fallback_handler = none }

abbrev is_some : Option ℕ → Bool
is_some none = false
is_some (some i) = true

-- query_start ? query_start : path + strlen(path)
abbrev search_end : Bytes → Option ℕ → ℕ
search_end path none = length path
search_end path (some q) = q

-- A slash behind the first one and before the query.
pub has_path_subpath : Bytes → Bool
has_path_subpath path = elim (strchr path b'/') [
  | none ↦ false
  | some first ↦
      let stop = search_end path (strchr path b'?') in
      is_some (strchr (take (stop - suc first) (drop (suc first) path)) b'/')
]

pub has_path_param : Bytes → Bool
has_path_param path = is_some (strchr path b'?')

module _ {H : Type 0} where
  -- if (using_session) routes[i].using_session = *using_session
  abbrev store_session : Option Bool → Route H → Route H
  store_session none r = r
  store_session (some b) r = record r { using_session = b }

  -- The first loop: the route with this very path.
  unfoldable pub find_exact : Option Bool → Bytes → List (Route H) → Option (List (Route H) × H)
  find_exact session path [] = none
  find_exact session path (r ∷ rs) =
      let rest = find_exact session path rs in
      if bytes_eq r.path path
      then some (store_session session r ∷ rs, r.handler)
      else elim rest [ none ↦ none | some (rs', h) ↦ some (r ∷ rs', h) ]

  -- The two inner tests of the second loop.
  pub serves : Bool → Bool → Route H → Bool
  serves subpath param r =
      (r.has_dynamic_subpath
        && subpath
        && ((param && r.has_dynamic_param) || (not r.has_dynamic_param && not param) || not param))
      || (r.has_dynamic_param
          && param
          && ((subpath && r.has_dynamic_subpath)
              || (not r.has_dynamic_subpath && not subpath)
              || not subpath))

  unfoldable pub find_dynamic : Bytes → Bytes → List (Route H) → Option H
  find_dynamic path base [] = none
  find_dynamic path base (r ∷ rs) =
      let rest = find_dynamic path base rs in
      if bytes_eq r.path base && serves (has_path_subpath path) (has_path_param path) r
      then some r.handler
      else rest

module _ {H A : Type 0} where
  -- `session` is what `using_session` points to, if it is not NULL. The code writes it to the route
  -- and nothing through it.
  unfoldable pub get_route_handler : Bytes → Option Bool → Router H A → Router H A × Option H
  get_route_handler [] session s = (s, none)
  get_route_handler (c ∷ cs) session s = elim (find_exact session (c ∷ cs) s.routes) [
    | some (rs, h) ↦ (record s { routes = rs }, some h)
    | none ↦ elim (find_dynamic (c ∷ cs) (get_route_base (c ∷ cs)) s.routes) [
      | some h ↦ (s, some h)
      | none ↦ (s, s.fallback_handler)
    ]
  ]
