-- ===== src/Http/Routes.antt =====
-- The table that `api_route_init` makes.
use capptpl.Base.{Bool, List, [], append-nil, append_assoc, false, sym, true, ◌++◌, ◌∙◌, ◌∷◌, ◌≡◌}
use capptpl.Http.{Route, add_routes, all_routes, api_route_init}

pub add_routes_all :
    (ms : List Bool) (rs routes : List Route)
    → (add_routes ms rs routes).0 ≡ true
    → (add_routes ms rs routes).1 ≡ routes ++ rs
unfolding add_routes
add_routes_all [] [] routes h = sym (append-nil routes)
add_routes_all (m ∷ ms) [] routes h = sym (append-nil routes)
add_routes_all [] (r ∷ rs) routes h = cc
add_routes_all (false ∷ ms) (r ∷ rs) routes h = cc
add_routes_all (true ∷ ms) (r ∷ rs) routes h =
    add_routes_all ms rs (routes ++ r ∷ []) h ∙ append_assoc routes (r ∷ []) rs

-- Where it returns 0, the table has every route, in the order of the code.
pub api_route_init_lem :
    (ms : List Bool) → (api_route_init ms).0 ≡ true → (api_route_init ms).1 ≡ all_routes
unfolding api_route_init
api_route_init_lem ms h = add_routes_all ms all_routes [] h
