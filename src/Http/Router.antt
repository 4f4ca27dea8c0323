-- ===== src/Http/Router.antt =====
-- router/router.go with middleware/auth.go and middleware/ratelimit.go: which handler a route has, and
-- what runs before it. gin matches the path; the routes for metrics and profiles and the recovery from
-- panics are left out.
pub mod Guard
pub mod Statuses
pub mod Handled
pub mod ReadsHandled
pub mod WritesHandled
pub mod Behind
pub mod Answers
pub mod Records
pub mod Limits
use student_service.Common.{
  Bool, true, false, not, Option, none, some, List, [], ◌∷◌, String, str_eq, if◌then◌else◌,
}
use student_service.Http.Observed.{prometheus_middleware, request_logger}
use student_service.Http.{
  Server, Response, fail, Context, handle_student_by_name, handle_all_students,
  handle_delete_students, handle_get_student, handle_add_student, handle_update_student,
  handle_delete_student, handle_add_score_pessimistic, handle_add_score_optimistic,
  handle_import_students,
}

-- The routes of the group /api/v1/student, in their order.
pub data Route : Type 0 where
  all_students get_student deleted_students search_students : Route
  add_student update_student delete_student add_score_pessimistic add_score_optimistic : Route
  import_students : Route

-- The routes of `authGroup`.
unfoldable pub in_auth_group : Route → Bool
in_auth_group all_students = false
in_auth_group get_student = false
in_auth_group deleted_students = false
in_auth_group search_students = false
in_auth_group add_student = true
in_auth_group update_student = true
in_auth_group delete_student = true
in_auth_group add_score_pessimistic = true
in_auth_group add_score_optimistic = true
in_auth_group import_students = true

-- The pattern of a route.
unfoldable pub full_path : Route → String
full_path all_students = "/api/v1/student"
full_path get_student = "/api/v1/student/get/:id"
full_path deleted_students = "/api/v1/student/get/de"
full_path search_students = "/api/v1/student/search"
full_path add_student = "/api/v1/student"
full_path update_student = "/api/v1/student/:id"
full_path delete_student = "/api/v1/student/:id"
full_path add_score_pessimistic = "/api/v1/student/:id/score/pessimistic"
full_path add_score_optimistic = "/api/v1/student/:id/score/optimistic"
full_path import_students = "/api/v1/student/import"

module _ {L : Type 0} (new_limiter : L) (allow : L → Bool × L) where
  -- `getLimiter` and `Allow`: the limiter of the address, made at its first request. `allow` is that of
  -- the present time.
  unfoldable pub limited : String → List (String × L) → Bool × List (String × L)
  limited ip [] = let (allowed, l) = allow new_limiter in (allowed, (ip, l) ∷ [])
  limited ip ((ip', l) ∷ ls) =
      let (allowed, l') = allow l in
      let (allowed', ls') = limited ip ls in
      if str_eq ip ip' then (allowed, (ip', l') ∷ ls) else (allowed', (ip', l) ∷ ls')

module _ {Q S Seed Db R K L F W : Type 0} (x : Context Q S Seed Db R K L F W) where
  unfoldable pub handler_of :
      Route → Q → Server S Seed Db R K L → Option (Response S) × Server S Seed Db R K L
  handler_of all_students = handle_all_students x
  handler_of get_student = handle_get_student x
  handler_of deleted_students = handle_delete_students x
  handler_of search_students = handle_student_by_name x
  handler_of add_student = handle_add_student x
  handler_of update_student = handle_update_student x
  handler_of delete_student = handle_delete_student x
  handler_of add_score_pessimistic = handle_add_score_pessimistic x
  handler_of add_score_optimistic = handle_add_score_optimistic x
  handler_of import_students = handle_import_students x

  -- `AuthMiddleware`.
  unfoldable pub auth_middleware :
      (Server S Seed Db R K L → Option (Response S) × Server S Seed Db R K L)
      → Q
      → Server S Seed Db R K L
      → Option (Response S) × Server S Seed Db R K L
  auth_middleware next q s =
      let token = x.gin.get_header x.token_header q in
      if str_eq token ""
      then (some (fail 401 "未携带登录凭证"), s)
      else if not (str_eq token x.token)
      then (some (fail 401 "登录凭证无效"), s)
      else next s

  -- `RateLimitMiddleware`.
  unfoldable pub rate_limit_middleware :
      (Server S Seed Db R K L → Option (Response S) × Server S Seed Db R K L)
      → Q
      → Server S Seed Db R K L
      → Option (Response S) × Server S Seed Db R K L
  rate_limit_middleware next q s =
      let (allowed, limiters) =
        limited x.new_limiter (x.allow s.clock) (x.gin.client_ip q) s.limiters in
      let s' = record s { limiters = limiters } in
      if not allowed then (some (fail 429 "请求过多，稍候重试"), s') else next s'

  -- What a route runs: its handler, behind the token in the group that wants it.
  unfoldable pub behind_token :
      Route → Q → Server S Seed Db R K L → Option (Response S) × Server S Seed Db R K L
  behind_token route q s =
      if in_auth_group route then auth_middleware (handler_of route q) q s else handler_of route q s

  -- A request on a route of the group.
  unfoldable pub serve :
      Route → Q → Server S Seed Db R K L → Option (Response S) × Server S Seed Db R K L
  serve route q =
      rate_limit_middleware
        (prometheus_middleware x (full_path route) (request_logger x (behind_token route q) q) q) q
