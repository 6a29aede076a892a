-- ===== src/Tests/Requests.antt =====
-- Requests for a table of two columns.
use batchflow.Prelude.{◌≡◌, true, false}
use batchflow.Prelude.Int.{pos, negsuc}
use batchflow.Errors.{ok}
use batchflow.Request.{
  Request, set_int32, set_int64, set_string, set_float64, set_bool, set_time, get_int32, get_int64,
  get_string, get_float64, get_bool, get_time,
}
use batchflow.Request.RoundTrip.{get-set}
use batchflow.Tests.Data.{schema, user}

abbrev request : Request
request = record { schema = schema; values = user (pos 1) true }

get-set_example :
    (get_int32 (set_int32 request "id" (negsuc 4)) "id" ≡ ok (negsuc 4))
    × (get_int64 (set_int64 request "id" (pos 7)) "id" ≡ ok (pos 7))
    × (get_string (set_string request "id" "a") "id" ≡ ok "a")
    × (get_float64 (set_float64 request "id" 0) "id" ≡ ok 0)
    × (get_bool (set_bool request "id" false) "id" ≡ ok false)
    × (get_time (set_time request "id" (pos 5)) "id" ≡ ok (pos 5))
get-set_example = get-set request "id" (negsuc 4) (pos 7) (pos 5) "a" 0 false
