-- ===== src/Routing/Table.antt =====
-- The table of routes: its bound, and what registering and rewriting do to the choice of a handler.
use cweb.Base.{
  ◌≤◌, ◌≡◌, inl, inr, Bool, List, [], ◌∷◌, Option, some, arith, Bytes, Bool-cases, Option-cases,
  length, length-append, ltb, ltb→lt,
}
use cweb.PathUtils.RouteBase.{get_route_base}
use cweb.Logger.{LogContext, log_message, fatal, suppressed, printed, exits}
use cweb.Routing.{
  Route, Router, Outcome, continues, ends, after_fatal, with_routes, find_dynamic, update_first,
  set_dynamic_subpath, set_dynamic_param, rewrite_route_path, register_asset_function,
  set_fallback_handler, add_route, clear_routes, find_exact, get_route_handler, max_routes,
  max_asset_functions,
}

-- One call of the module's interface.
pub data Call (H A : Type 0) : Type 0 where
  add : LogContext → Bytes → H → Bool → Call H A
  mark_subpath mark_param : Bytes → Bool → Call H A
  rewrite : Bytes → Bytes → Call H A
  register_asset : LogContext → A → Call H A
  set_fallback : Option H → Call H A
  dispatch : Bytes → Option Bool → Call H A
  clear : Call H A

module _ {H A : Type 0} where
  pub step : Call H A → Router H A → Outcome (Router H A)
  step (add c path h session) s = add_route c path h session s
  step (mark_subpath path b) s = continues (set_dynamic_subpath path b s)
  step (mark_param path b) s = continues (set_dynamic_param path b s)
  step (rewrite a b) s = continues (rewrite_route_path a b s).0
  step (register_asset c f) s = register_asset_function c f s
  step (set_fallback h) s = continues (set_fallback_handler h s)
  step (dispatch path session) s = continues (get_route_handler path session s).0
  step clear s = continues (clear_routes s)

  -- The calls in order, up to one that ends the program.
  pub run : List (Call H A) → Router H A → Outcome (Router H A)
  run [] s = continues s
  run (c ∷ cs) s = elim (step c s) [ continues t ↦ run cs t | ends ↦ ends ]

  pub record IsBounded (s : Router H A) : Type 0 where
    pub routes_fit : length s.routes ≤ max_routes
    pub assets_fit : length s.asset_functions ≤ max_asset_functions

  abbrev pub EndsBounded : Outcome (Router H A) → Type 0
  EndsBounded (continues s) = IsBounded s
  EndsBounded ends = Unit

module _ {H : Type 0} where
  length-update_first :
      (path : Bytes) (change : Route H → Route H) (rs rs' : List (Route H))
      → update_first path change rs ≡ some rs'
      → length rs' ≡ length rs
  unfolding update_first
  length-update_first path change [] rs' e = cc
  length-update_first path change (r ∷ rs) rs' e =
      elim (Option-cases (update_first path change rs)) [
        | inl n ↦ ground arith
        | inr (t, f) ↦ ground (arith, length-update_first path change rs t f)
      ]

  length-find_exact :
      (session : Option Bool) (path : Bytes) (rs rs' : List (Route H)) (h : H)
      → find_exact session path rs ≡ some (rs', h)
      → length rs' ≡ length rs
  unfolding find_exact
  length-find_exact session path [] rs' h e = cc
  length-find_exact session path (r ∷ rs) rs' h e =
      elim (Option-cases (find_exact session path rs)) [
        | inl n ↦ ground arith
        | inr ((t, h'), f) ↦ ground (arith, length-find_exact session path rs t h' f)
      ]

module _ {H A : Type 0} where
  after_fatal-EndsBounded :
      (c : LogContext) (s : Router H A) → IsBounded s → EndsBounded (after_fatal c s)
  after_fatal-EndsBounded c s b =
      elim (log_message c fatal)
        as (λ o.
          EndsBounded
            (elim o [ suppressed ↦ continues s | printed ↦ continues s | exits ↦ ends ])) [
              | suppressed ↦ b
              | printed ↦ b
              | exits ↦ tt
            ]

  update-EndsBounded :
      (path : Bytes) (change : Route H → Route H) (s : Router H A)
      → IsBounded s
      → IsBounded (with_routes s (update_first path change s.routes))
  update-EndsBounded path change s b = elim (Option-cases (update_first path change s.routes)) [
    | inl n ↦ rw n b
    | inr (rs, e) ↦ rw e (record {
      routes_fit = omega (arith, length-update_first path change s.routes rs e, b.routes_fit);
      assets_fit = b.assets_fit;
    })
  ]

  rewrite-IsBounded :
      (current new_path : Bytes) (s : Router H A)
      → IsBounded s
      → IsBounded (rewrite_route_path current new_path s).0
  unfolding rewrite_route_path
  rewrite-IsBounded current new_path s b =
      let change : Route H → Route H = λ r. record r { path = new_path } in
      elim (Option-cases (update_first current change s.routes)) [
        | inl n ↦ rw (n, rewrite_route_path) b
        | inr (rs, e) ↦
            rw (e, rewrite_route_path)
              (record {
                routes_fit =
                    omega (arith, length-update_first current change s.routes rs e, b.routes_fit);
                assets_fit = b.assets_fit;
              })
      ]

  dispatch-IsBounded :
      (path : Bytes) (session : Option Bool) (s : Router H A)
      → IsBounded s
      → IsBounded (get_route_handler path session s).0
  unfolding get_route_handler
  dispatch-IsBounded [] session s b = b
  dispatch-IsBounded (c ∷ cs) session s b =
      elim (Option-cases (find_exact session (c ∷ cs) s.routes)) [
        | inl n ↦
            rw (n, get_route_handler)
              (elim (Option-cases (find_dynamic (c ∷ cs) (get_route_base (c ∷ cs)) s.routes)) [
                | inl m ↦ rw m b
                | inr (h, m) ↦ rw m b
              ])
        | inr ((rs, h), e) ↦
            rw (e, get_route_handler)
              (record {
                routes_fit =
                    omega (arith, length-find_exact session (c ∷ cs) s.routes rs h e, b.routes_fit);
                assets_fit = b.assets_fit;
              })
      ]

  add-EndsBounded :
      (c : LogContext) (path : Bytes) (h : H) (session : Bool) (s : Router H A)
      → IsBounded s
      → EndsBounded (add_route c path h session s)
  unfolding add_route
  add-EndsBounded c path h session s b = elim (Bool-cases (ltb (length s.routes) max_routes)) [
    | inl y ↦ rw y (record {
      routes_fit = omega (arith, ltb→lt _ _ y, length-append s.routes (_ ∷ []));
      assets_fit = b.assets_fit;
    })
    | inr n ↦ rw n (after_fatal-EndsBounded c s b)
  ]

  register-EndsBounded :
      (c : LogContext) (f : A) (s : Router H A)
      → IsBounded s
      → EndsBounded (register_asset_function c f s)
  unfolding register_asset_function
  register-EndsBounded c f s b =
      elim (Bool-cases (ltb (length s.asset_functions) max_asset_functions)) [
        | inl y ↦ rw y (record {
          routes_fit = b.routes_fit;
          assets_fit = omega (arith, ltb→lt _ _ y, length-append s.asset_functions (f ∷ []));
        })
        | inr n ↦ rw n (after_fatal-EndsBounded c s b)
      ]

  step-EndsBounded : (c : Call H A) (s : Router H A) → IsBounded s → EndsBounded (step c s)
  unfolding step set_dynamic_subpath set_dynamic_param set_fallback_handler clear_routes
  step-EndsBounded (add c path h session) s b = add-EndsBounded c path h session s b
  step-EndsBounded (mark_subpath path f) s b = update-EndsBounded path _ s b
  step-EndsBounded (mark_param path f) s b = update-EndsBounded path _ s b
  step-EndsBounded (rewrite x y) s b = rewrite-IsBounded x y s b
  step-EndsBounded (register_asset c f) s b = register-EndsBounded c f s b
  step-EndsBounded (set_fallback h) s b = record {
    routes_fit = b.routes_fit;
    assets_fit = b.assets_fit;
  }
  step-EndsBounded (dispatch path session) s b = dispatch-IsBounded path session s b
  step-EndsBounded clear s b = record { routes_fit = omega arith; assets_fit = b.assets_fit }

  -- No sequence of calls overruns the arrays of 128 routes and 128 asset functions: whatever a
  -- bounded table goes through, it is bounded again, unless a fatal message has ended the program.
  pub run-EndsBounded :
      (cs : List (Call H A)) (s : Router H A) → IsBounded s → EndsBounded (run cs s)
  unfolding run
  run-EndsBounded [] s b = b
  run-EndsBounded (c ∷ cs) s b =
      next (step c s) (step-EndsBounded c s b) (λ t k. run-EndsBounded cs t k)
    where
      next :
          (o : Outcome (Router H A))
          → EndsBounded o
          → ((t : Router H A) → IsBounded t → EndsBounded (run cs t))
          → EndsBounded (elim o [ continues t ↦ run cs t | ends ↦ ends ])
      next (continues t) k go = go t k
      next ends k go = tt
