-- ===== src/Registry/Runs.antt =====
-- Runs of the registry, and its theorems at concrete inputs.
use cache_predict.Common.{◌≡◌, ◌≢◌, refl, some, arith}
use cache_predict.Common.Dict.{lookup, insert, bytes_key}
use cache_predict.Common.Text.{codes}
use cache_predict.Registry.{
  EndpointRegistry, new_endpoint_registry, get_or_register, register, write_back, find, pattern_of,
  invalid_route_id,
}
use cache_predict.Registry.Laws.{
  IsRegistry, IsRegistry-new, get_or_register-IsRegistry, get_or_register_inverse,
}

abbrev one_route : EndpointRegistry
one_route = (get_or_register (codes "GET /a") new_endpoint_registry).1

-- The second pattern gets the second id, and the first keeps its own.
second_id :
    ((get_or_register (codes "GET /b") one_route).0 ≡ 1)
    × ((get_or_register (codes "GET /a") one_route).0 ≡ 0)
unfolding get_or_register register write_back lookup insert
second_id = (refl, refl)

get_or_register-IsRegistry_example : IsRegistry one_route
get_or_register-IsRegistry_example =
    get_or_register-IsRegistry (codes "GET /a") new_endpoint_registry IsRegistry-new

b_is_valid : (get_or_register (codes "GET /b") one_route).0 ≢ invalid_route_id
unfolding get_or_register register write_back lookup insert
b_is_valid = λ e. absurd (omega (arith, e))

get_or_register_inverse_example :
    (find (codes "GET /b") (get_or_register (codes "GET /b") one_route).1
      ≡ some (get_or_register (codes "GET /b") one_route).0)
    × (pattern_of
          (get_or_register (codes "GET /b") one_route).0
          (get_or_register (codes "GET /b") one_route).1
        ≡ codes "GET /b")
get_or_register_inverse_example =
    get_or_register_inverse (codes "GET /b") one_route get_or_register-IsRegistry_example b_is_valid

a_is_zero : find (codes "GET /a") one_route ≡ some 0
unfolding find get_or_register register write_back lookup insert
a_is_zero = refl
