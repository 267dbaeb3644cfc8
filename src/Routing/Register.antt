-- ===== src/Routing/Register.antt =====
-- What registering, rewriting and dispatching do to later dispatches.
use mathlib.Core.List.{append_assoc}
use cweb.Base.{
  ◌<◌, ◌≡◌, ◌≢◌, refl, ap, subst, ◌∙◌, Bool, true, List, [], ◌∷◌, ◌++◌, some, arith, lt→ltb, All,
  Bytes, bytes_eq_iff, length,
}
use cweb.Logger.{LogContext}
use cweb.Routing.{
  Route, Router, new_route, continues, update_first, rewrite_route_path, add_route, find_exact,
  get_route_handler, max_routes,
}
use cweb.Routing.Dispatch.{First, HasPath}

module _ {H : Type 0} where
  update_first_at :
      (path : Bytes) (change : Route H → Route H) (before after : List (Route H)) (r : Route H)
      → All (λ q. ¬ HasPath path q) before
      → HasPath path r
      → update_first path change (before ++ r ∷ after) ≡ some (before ++ change r ∷ after)
  unfolding update_first
  update_first_at path change [] after r n h = rw ((bytes_eq_iff r.path path).1 h)
  update_first_at path change (q ∷ before) after r n h =
      ground
        (arith, update_first_at path change before after r n.1 h, bytes_eq_iff q.path path, n.0)

  -- An exact match writes the request's flag to the route.
  find_exact_at :
      (session : Bool) (path : Bytes) (before after : List (Route H)) (r : Route H)
      → All (λ q. ¬ HasPath path q) before
      → HasPath path r
      → find_exact (some session) path (before ++ r ∷ after)
        ≡ some (before ++ record r { using_session = session } ∷ after, r.handler)
  unfolding find_exact
  find_exact_at session path [] after r n h = rw ((bytes_eq_iff r.path path).1 h)
  find_exact_at session path (q ∷ before) after r n h =
      ground (arith, find_exact_at session path before after r n.1 h, bytes_eq_iff q.path path, n.0)

All-prefix : {A : Type 0} (P : A → Type 0) (xs ys : List A) → All P (xs ++ ys) → All P xs
All-prefix P [] ys h = tt
All-prefix P (x ∷ xs) ys h = (h.0, All-prefix P xs ys h.1)

module _ {H A : Type 0} where
  dispatch_at :
      (path : Bytes) (session : Bool) (s : Router H A) (before after : List (Route H)) (r : Route H)
      → path ≢ []
      → All (λ q. ¬ HasPath path q) before
      → HasPath path r
      → s.routes ≡ before ++ r ∷ after
      → get_route_handler path (some session) s ≡ (
        record s { routes = before ++ record r { using_session = session } ∷ after },
        some r.handler,
      )
  unfolding get_route_handler
  dispatch_at [] session s before after r ne n h e = absurd (ne refl)
  dispatch_at (c ∷ cs) session s before after r ne n h e =
      rw
        (
          ap (find_exact (some session) (c ∷ cs)) e
              ∙ find_exact_at session (c ∷ cs) before after r n h,
          get_route_handler,
        )
        refl

  -- A dispatch to the first route with a path gives its handler and, in place of reporting the flag
  -- that the route was registered with, overwrites it with the request's; nothing else changes.
  dispatch_overwrites_session :
      (path : Bytes) (session : Bool) (s : Router H A) (r : Route H)
      → path ≢ []
      → (f : First (HasPath path) s.routes r)
      → get_route_handler path (some session) s ≡ (
        record s { routes = f.before ++ record r { using_session = session } ∷ f.after },
        some r.handler,
      )
  dispatch_overwrites_session path session s r ne f =
      dispatch_at path session s f.before f.after r ne f.skipped f.satisfies f.splits

  -- A route is added at the end of a table that has room, without its dynamic marks.
  add_route_room :
      (c : LogContext) (path : Bytes) (h : H) (session : Bool) (s : Router H A)
      → length s.routes < max_routes
      → add_route c path h session s
        ≡ continues (record s { routes = s.routes ++ new_route path h session ∷ [] })
  unfolding add_route
  add_route_room c path h session s n = rw (lt→ltb _ _ n)

  -- A path that is registered in a table with room, and was not in it, gets its handler.
  add_route_dispatch :
      (c : LogContext) (path : Bytes) (h : H) (registered requested : Bool) (s : Router H A)
      → path ≢ []
      → length s.routes < max_routes
      → All (λ q. ¬ HasPath path q) s.routes
      → (t : Router H A) × (add_route c path h registered s ≡ continues t)
        × ((get_route_handler path (some requested) t).1 ≡ some h)
  add_route_dispatch c path h registered requested s ne n absent = (
    _,
    add_route_room c path h registered s n,
    ap (λ x. x.1) (dispatch_at path requested _ s.routes [] _ ne absent refl refl),
  )

  -- The first registration of a path wins: no later one changes the handler that the path gets.
  add_route-First :
      (c : LogContext) (path other : Bytes) (h : H) (registered requested : Bool) (s : Router H A)
      (r : Route H)
      → path ≢ []
      → length s.routes < max_routes
      → First (HasPath path) s.routes r
      → (t : Router H A) × (add_route c other h registered s ≡ continues t)
        × ((get_route_handler path (some requested) t).1 ≡ some r.handler)
  add_route-First c path other h registered requested s r ne n f = (
    _,
    add_route_room c other h registered s n,
    ap (λ x. x.1)
        (dispatch_at path requested _ f.before (f.after ++ new_route other h registered ∷ []) r ne
          f.skipped f.satisfies
          (ap (λ rs. rs ++ new_route other h registered ∷ []) f.splits
            ∙ append_assoc f.before (r ∷ f.after) _)),
  )

  -- Where no route has the new path, a rewritten route is found by it; the call returns 0.
  rewrite_route_path_dispatch :
      (current new_path : Bytes) (requested : Bool) (s : Router H A) (r : Route H)
      → new_path ≢ []
      → First (HasPath current) s.routes r
      → All (λ q. ¬ HasPath new_path q) s.routes
      → let t = rewrite_route_path current new_path s in
        (t.1 ≡ true) × ((get_route_handler new_path (some requested) t.0).1 ≡ some r.handler)
  unfolding rewrite_route_path
  rewrite_route_path_dispatch current new_path requested s r ne f absent =
      let e =
        ap (update_first current (λ q. record q { path = new_path })) f.splits
        ∙ update_first_at current (λ q. record q { path = new_path }) f.before f.after r f.skipped
            f.satisfies in
      rw (e, rewrite_route_path)
        (
          refl,
          ap (λ x. x.1)
              (dispatch_at new_path requested _ f.before f.after _ ne
                (All-prefix (λ q. ¬ HasPath new_path q) f.before (r ∷ f.after)
                  (subst (All (λ q. ¬ HasPath new_path q)) f.splits absent))
                refl refl),
        )
