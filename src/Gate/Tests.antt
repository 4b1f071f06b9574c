-- ===== src/Gate/Tests.antt =====
-- The gateway with a health route and an upload route.
use mould_system_backend.Common.{
  ℕ, pos, true, false, Bytes, none, some, List, [], ◌∷◌, ◌++◌, ◌+◌, ◌≡◌, ◌⊎◌, ◌↔◌, refl,
}
use mould_system_backend.Gate.{RequestView, HandlerFn}
use mould_system_backend.Gate.Handler.{IHandler, handle, handle_lem}
use mould_system_backend.Gate.Router.{
  RouteEntry, RouterDispatcher, initial_router, register_route, register_handler, match_path,
  match_prefix, wildcard, AllMiss, matches_route, not_found, dispatch, dispatch_lem,
}
use mould_system_backend.Gate.Validator.{
  validate_capture_time_format, validate_image_magic_bytes, image_ok, detect_format, check_digit,
  has_separators, has_digits, skip_fraction, skip_digits, valid_zone,
}
use mould_system_backend.Gate.CaptureTime.{
  Fits, date_slots, IsFraction, IsZone, validate_capture_time_format_iff,
}
use mould_system_backend.Gate.Paths.{IsBelow, match_path_iff}

abbrev get : Bytes
get = b'G' ∷ b'E' ∷ b'T' ∷ []

abbrev api : Bytes
api = b'/' ∷ b'a' ∷ []

abbrev request : RequestView
request = record {
  request_id = b'7' ∷ [];
  method = get;
  path = api ++ b'/' ∷ b'x' ∷ [];
  body = [];
  headers = λ name. none;
  client_ip = [];
  content_type = [];
  content_length = pos 0;
  arrival_timestamp_ms = pos 0;
}

-- Counts the requests that it processes, and refuses those without a body.
abbrev counter : IHandler ℕ ℕ
counter = record {
  do_parse = λ view n. (record { ok = true; status_code = 200; error_msg = []; ctx = n }, view, n);
  do_process = λ parsed n. (
    record {
      ok = true;
      status_code = 200;
      error_msg = [];
      request_id = b'1' ∷ [];
      resource_id = b'1' ∷ [];
      ctx = n;
    },
    n + 1,
  );
  post_process = λ processed n. n;
}

abbrev router : RouterDispatcher ℕ
router = record {
  routes =
      record { method = []; path_pattern = b'/' ∷ b'h' ∷ []; handler = handle counter }
      ∷ record { method = get; path_pattern = api ++ wildcard; handler = handle counter }
      ∷ [];
  fallback = none;
}

router_built :
    register_handler get
      (api ++ wildcard)
      counter
      (register_handler [] (b'/' ∷ b'h' ∷ []) counter initial_router)
    ≡ router
unfolding register_handler register_route
router_built = refl

below_matched : match_path (api ++ wildcard) (api ++ b'/' ∷ b'x' ∷ []) ≡ true
unfolding match_path match_prefix
below_matched = refl

longer_refused : match_path (api ++ wildcard) (api ++ b'x' ∷ []) ≡ false
unfolding match_path match_prefix
longer_refused = refl

match_path_iff_example : (match_path (api ++ wildcard) request.path ≡ true) ↔ (
    (api ++ wildcard ≡ request.path)
    ⊎ ((prefix : Bytes) × (api ++ wildcard ≡ prefix ++ wildcard)
        × ((prefix ≡ []) ⊎ IsBelow prefix request.path)))
match_path_iff_example = match_path_iff (api ++ wildcard) request.path

handle_lem_example :
    let (parsed, seen, w1) = counter.do_parse request 3 in
    let (processed, w2) = counter.do_process parsed w1 in
    let (result, last, w3) = handle counter request 3 in
    ((result.success ≡ true) ↔ ((parsed.ok ≡ true) × (processed.ok ≡ true)))
    × (last ≡ seen)
    × (result.success ≡ true
        → (result.http_status_code ≡ 200) × (w3 ≡ counter.post_process processed w2))
    × (parsed.ok ≡ false
        → (result.http_status_code ≡ parsed.status_code)
          × (result.request_id ≡ seen.request_id)
          × (w3 ≡ w1))
    × (parsed.ok ≡ true
        → processed.ok ≡ false
        → (result.http_status_code ≡ processed.status_code)
          × (result.request_id ≡ seen.request_id)
          × (w3 ≡ w2))
handle_lem_example = handle_lem counter request 3

dispatch_lem_example :
    ((before : List (RouteEntry ℕ)) (route : RouteEntry ℕ) (after : List (RouteEntry ℕ))
      → router.routes ≡ before ++ route ∷ after
      → AllMiss before request
      → matches_route route request ≡ true
      → dispatch router request 3 ≡ route.handler request 3)
    × (AllMiss router.routes request
        → ((fallback : HandlerFn ℕ)
            → router.fallback ≡ some fallback
            → dispatch router request 3 ≡ fallback request 3)
          × (router.fallback ≡ none
              → dispatch router request 3 ≡ (not_found request.request_id, request, 3)))
dispatch_lem_example = dispatch_lem router request 3

-- 2026-05-08T10:30:00
abbrev morning : Bytes
morning =
    b'2' ∷ b'0' ∷ b'2' ∷ b'6' ∷ b'-' ∷ b'0' ∷ b'5' ∷ b'-' ∷ b'0' ∷ b'8' ∷ b'T' ∷ b'1' ∷ b'0' ∷ b':'
    ∷ b'3' ∷ b'0' ∷ b':' ∷ b'0' ∷ b'0' ∷ []

abbrev time : Bytes
time = morning ++ b'Z' ∷ []

abbrev image : Bytes
image = 255 ∷ 216 ∷ 255 ∷ 224 ∷ []

abbrev jpeg_name : Bytes
jpeg_name = b'j' ∷ b'p' ∷ b'e' ∷ b'g' ∷ []

time_accepted : validate_capture_time_format time ≡ true
unfolding validate_capture_time_format has_separators has_digits skip_fraction valid_zone
    check_digit
time_accepted = refl

-- No digit needs to follow the point.
empty_fraction_accepted : validate_capture_time_format (morning ++ b'.' ∷ b'Z' ∷ []) ≡ true
unfolding validate_capture_time_format has_separators has_digits skip_fraction skip_digits
    valid_zone check_digit
empty_fraction_accepted = refl

jpeg_accepted : validate_image_magic_bytes image jpeg_name ≡ image_ok
unfolding validate_image_magic_bytes detect_format
jpeg_accepted = refl

validate_capture_time_format_iff_example : (validate_capture_time_format time ≡ true) ↔ (
    (date : Bytes) × (fraction : Bytes) × (zone : Bytes) × (time ≡ date ++ (fraction ++ zone))
    × Fits date_slots date
    × IsFraction fraction
    × IsZone zone)
validate_capture_time_format_iff_example = validate_capture_time_format_iff time
