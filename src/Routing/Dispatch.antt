-- ===== src/Routing/Dispatch.antt =====
-- Which handler `cweb_get_route_handler` chooses.
use cweb.Base.{
  ◌≡◌, ◌≢◌, ◌⊎◌, refl, sym, ap, ◌∙◌, inl, inr, Bool, true, ◌&&◌, ◌||◌, List, [], ◌∷◌, ◌++◌, Option,
  none, some, arith, All, Bytes, bytes_eq, bytes_eq_iff, ne_of_bytes_eq, Bool-cases,
}
use cweb.PathUtils.RouteBase.{get_route_base}
use cweb.Routing.{
  Route, Router, has_path_subpath, has_path_param, store_session, find_exact, serves, find_dynamic,
  get_route_handler,
}

module _ {H : Type 0} where
  -- A route takes the paths that extend its own by a subpath, by parameters or by both, if it is
  -- marked for all that the path has.
  pub record Extends (path : Bytes) (r : Route H) : Type 0 where
    pub over_base : r.path ≡ get_route_base path
    pub some_tail : (has_path_subpath path || has_path_param path) ≡ true
    pub subpath_ok : has_path_subpath path ≡ true → r.has_dynamic_subpath ≡ true
    pub param_ok : has_path_param path ≡ true → r.has_dynamic_param ≡ true

  -- The first route of a list that satisfies `P`.
  pub record First (P : Route H → Type 0) (rs : List (Route H)) (r : Route H) : Type 0 where
    pub before : List (Route H)
    pub after : List (Route H)
    pub splits : rs ≡ before ++ r ∷ after
    pub skipped : All (λ q. ¬ P q) before
    pub satisfies : P r

  First-here : (P : Route H → Type 0) (r : Route H) (rs : List (Route H)) → P r → First P (r ∷ rs) r
  First-here P r rs h = record {
    before = [];
    after = rs;
    splits = refl;
    skipped = tt;
    satisfies = h;
  }

  First-there :
      (P : Route H → Type 0) (q r : Route H) (rs : List (Route H))
      → ¬ P q
      → First P rs r
      → First P (q ∷ rs) r
  First-there P q r rs n f = record {
    before = q ∷ f.before;
    after = f.after;
    splits = ap (◌∷◌ q) f.splits;
    skipped = (n, f.skipped);
    satisfies = f.satisfies;
  }

  serves-Extends :
      (path : Bytes) (r : Route H)
      → (bytes_eq r.path (get_route_base path)
          && serves (has_path_subpath path) (has_path_param path) r)
        ≡ true
      → Extends path r
  unfolding serves
  serves-Extends path r h = record {
    over_base = (bytes_eq_iff r.path (get_route_base path)).0 (ground arith);
    some_tail = ground arith;
    subpath_ok = λ s. ground arith;
    param_ok = λ s. ground arith;
  }

  Extends-serves :
      (path : Bytes) (r : Route H)
      → Extends path r
      → (bytes_eq r.path (get_route_base path)
          && serves (has_path_subpath path) (has_path_param path) r)
        ≡ true
  unfolding serves
  Extends-serves path r e =
      rw ((bytes_eq_iff r.path (get_route_base path)).1 e.over_base)
        (ground (arith, e.some_tail, e.subpath_ok, e.param_ok))

  abbrev pub HasPath : Bytes → Route H → Type 0
  HasPath path r = r.path ≡ path

  -- The handler that a path gets: none for the empty path, the first route with the path itself,
  -- else the first route that the path extends, else the fallback.
  pub data Chosen (rs : List (Route H)) (fallback : Option H) (path : Bytes) (o : Option H)
      : Type 0 where
    empty_path : path ≡ [] → o ≡ none → Chosen rs fallback path o
    exact :
        (r : Route H)
        → path ≢ []
        → First (HasPath path) rs r
        → o ≡ some r.handler
        → Chosen rs fallback path o
    dynamic :
        (r : Route H)
        → path ≢ []
        → All (λ q. ¬ HasPath path q) rs
        → First (Extends path) rs r
        → o ≡ some r.handler
        → Chosen rs fallback path o
    by_fallback :
        path ≢ []
        → All (λ q. ¬ HasPath path q) rs
        → All (λ q. ¬ Extends path q) rs
        → o ≡ fallback
        → Chosen rs fallback path o

  find_exact_cases :
      (session : Option Bool) (path : Bytes) (rs : List (Route H))
      → ((find_exact session path rs ≡ none) × All (λ q. ¬ HasPath path q) rs)
        ⊎ ((r : Route H) × (rs' : List (Route H)) × First (HasPath path) rs r
            × (find_exact session path rs ≡ some (rs', r.handler)))
  unfolding find_exact
  find_exact_cases session path [] = inl (refl, tt)
  find_exact_cases session path (q ∷ rs) = elim (Bool-cases (bytes_eq q.path path)) [
    | inl y ↦ inr (
      q,
      store_session session q ∷ rs,
      First-here (HasPath path) q rs ((bytes_eq_iff q.path path).0 y),
      rw (y, find_exact) refl,
    )
    | inr n ↦ elim (find_exact_cases session path rs) [
      | inl (e, none_there) ↦
          inl (rw (n, find_exact) (rw e), (ne_of_bytes_eq q.path path n, none_there))
      | inr (r, rs', f, e) ↦ inr (
        r,
        q ∷ rs',
        First-there (HasPath path) q r rs (ne_of_bytes_eq q.path path n) f,
        rw (n, find_exact) (rw e),
      )
    ]
  ]

  find_dynamic_cases :
      (path : Bytes) (rs : List (Route H))
      → ((find_dynamic path (get_route_base path) rs ≡ none) × All (λ q. ¬ Extends path q) rs)
        ⊎ ((r : Route H) × First (Extends path) rs r
            × (find_dynamic path (get_route_base path) rs ≡ some r.handler))
  unfolding find_dynamic
  find_dynamic_cases path [] = inl (refl, tt)
  find_dynamic_cases path (q ∷ rs) =
      elim (Bool-cases (
        bytes_eq q.path (get_route_base path)
        && serves (has_path_subpath path) (has_path_param path) q)) [
          | inl y ↦ inr (
            q,
            First-here (Extends path) q rs (serves-Extends path q y),
            rw (y, find_dynamic) refl,
          )
          | inr n ↦
              let not_here : ¬ Extends path q = λ e. cc (sym n ∙ Extends-serves path q e) in
              elim (find_dynamic_cases path rs) [
                | inl (e, none_there) ↦ inl (rw (n, find_dynamic) e, (not_here, none_there))
                | inr (r, f, e) ↦
                    inr (r, First-there (Extends path) q r rs not_here f, rw (n, find_dynamic) e)
              ]
        ]

module _ {H A : Type 0} where
  -- `cweb_get_route_handler` gives no handler for the empty path. For any other it gives the handler
  -- of the first route with that very path; where there is none, that of the first route over the
  -- path's base that is marked for a subpath, if the path has one, and for parameters, if it has
  -- some; where there is none of these either, the fallback handler, which may be missing.
  pub get_route_handler-Chosen :
      (path : Bytes) (session : Option Bool) (s : Router H A)
      → Chosen s.routes s.fallback_handler path (get_route_handler path session s).1
  unfolding get_route_handler
  get_route_handler-Chosen [] session s = empty_path refl refl
  get_route_handler-Chosen (c ∷ cs) session s = elim (find_exact_cases session (c ∷ cs) s.routes) [
    | inr (r, rs', f, e) ↦ exact r (λ x. cc) f (rw (e, get_route_handler) refl)
    | inl (e, no_exact) ↦ elim (find_dynamic_cases (c ∷ cs) s.routes) [
      | inr (r, f, d) ↦ dynamic r (λ x. cc) no_exact f (rw (e, get_route_handler) (rw d))
      | inl (d, no_dynamic) ↦
          by_fallback (λ x. cc) no_exact no_dynamic (rw (e, get_route_handler) (rw d))
    ]
  ]
