-- ===== src/Routing/Examples.antt =====
-- Runs of the router, and instances of the theorems on routes.
use cweb.Base.{
  ℕ, ◌≡◌, refl, true, false, List, [], ◌∷◌, none, some, arith, All, codes, bytes_eq, strchr,
  ne_of_bytes_eq,
}
use cweb.Logger.{initial_context}
use cweb.PathUtils.RouteBase.{get_route_base, take_while}
use cweb.Routing.{
  Route, Router, new_route, get_route_handler, find_exact, find_dynamic, serves, has_path_subpath,
  has_path_param,
}
use cweb.Routing.Dispatch.{First, HasPath, Chosen, get_route_handler-Chosen}
use cweb.Routing.Table.{
  Call, add, mark_subpath, dispatch, rewrite, run, EndsBounded, run-EndsBounded,
}

-- Handlers are numbers here.
abbrev home : Route ℕ
home = new_route (codes "/") 1 true

abbrev shop : Route ℕ
shop = record (new_route (codes "/shop") 2 false) { has_dynamic_subpath = true }

abbrev site : Router ℕ ℕ
site = record { routes = home ∷ shop ∷ []; fallback_handler = some 9; asset_functions = [] }

-- The subpath is allowed, the parameters are not.
shop_subpath : (get_route_handler (codes "/shop/7") none site).1 ≡ some 2
unfolding get_route_handler find_exact find_dynamic serves has_path_subpath has_path_param
    get_route_base take_while bytes_eq strchr
shop_subpath = refl

shop_params : (get_route_handler (codes "/shop/7?a=1") none site).1 ≡ some 9
unfolding get_route_handler find_exact find_dynamic serves has_path_subpath has_path_param
    get_route_base take_while bytes_eq strchr
shop_params = refl

get_route_handler-Chosen_example :
    Chosen site.routes site.fallback_handler
      (codes "/shop/7")
      (get_route_handler (codes "/shop/7") none site).1
get_route_handler-Chosen_example = get_route_handler-Chosen (codes "/shop/7") none site

home-First : First (HasPath (codes "/")) site.routes home
home-First = record {
  before = [];
  after = shop ∷ [];
  splits = refl;
  skipped = tt;
  satisfies = refl;
}

cart_absent : All (λ q. ¬ HasPath (codes "/cart") q) site.routes
unfolding bytes_eq
cart_absent = (
  ne_of_bytes_eq (codes "/") (codes "/cart") refl,
  (ne_of_bytes_eq (codes "/shop") (codes "/cart") refl, tt),
)

abbrev session_calls : List (Call ℕ ℕ)
session_calls =
    add initial_context (codes "/cart") 3 true
    ∷ mark_subpath (codes "/cart") true
    ∷ dispatch (codes "/cart/2") (some false)
    ∷ rewrite (codes "/cart") (codes "/basket")
    ∷ []

run-EndsBounded_example : EndsBounded (run session_calls site)
run-EndsBounded_example = run-EndsBounded session_calls site (omega arith)
