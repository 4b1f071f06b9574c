-- ===== src/Gate/Router.antt =====
-- gate/router_dispatcher.hpp: which handler answers a request.
use mould_system_backend.Common.{
  Bool, true, false, ◌&&◌, ◌||◌, Bytes, bytes_eq, is_empty, Option, none, some, List, [], ◌∷◌, ◌++◌,
  ◌-◌, ◌==◌, leb, ◌≡◌, refl, if◌then◌else◌, length, take, drop, get_or,
}
use mould_system_backend.Gate.{RequestView, HandlerResult, HandlerFn}
use mould_system_backend.Gate.Handler.{IHandler, handle}

pub record RouteEntry (W : Type 0) : Type 0 where
  pub method : Bytes
  pub path_pattern : Bytes
  pub handler : HandlerFn W

pub record RouterDispatcher (W : Type 0) : Type 0 where
  pub routes : List (RouteEntry W)
  pub fallback : Option (HandlerFn W)

abbrev pub initial_router : {W : Type 0} → RouterDispatcher W
initial_router = record { routes = []; fallback = none }

unfoldable pub register_route :
    {W : Type 0} → Bytes → Bytes → HandlerFn W → RouterDispatcher W → RouterDispatcher W
register_route method path_pattern handler router = record router {
  routes =
      router.routes
      ++ record { method = method; path_pattern = path_pattern; handler = handler } ∷ [];
}

unfoldable pub register_handler :
    {W C : Type 0} → Bytes → Bytes → IHandler W C → RouterDispatcher W → RouterDispatcher W
unfolding register_route
register_handler method path_pattern handler router =
    register_route method path_pattern (handle handler) router

unfoldable pub set_fallback : {W : Type 0} → HandlerFn W → RouterDispatcher W → RouterDispatcher W
set_fallback handler router = record router { fallback = some handler }

unfoldable pub match_method : Bytes → Bytes → Bool
match_method pattern actual =
    is_empty pattern || bytes_eq pattern (b'*' ∷ []) || bytes_eq pattern actual

abbrev pub wildcard : Bytes
wildcard = b'/' ∷ b'*' ∷ []

-- The test of a path against the part of the pattern before the wildcard.
unfoldable pub match_prefix : Bytes → Bytes → Bool
match_prefix pattern actual =
    if is_empty pattern
    then true
    else leb (length pattern) (length actual)
      && bytes_eq (take (length pattern) actual) pattern
      && (length actual == length pattern || get_or actual (length pattern) 0 == b'/')

unfoldable pub match_path : Bytes → Bytes → Bool
unfolding match_prefix
match_path pattern actual =
    if bytes_eq pattern actual
    then true
    else if leb 2 (length pattern) && bytes_eq (drop (length pattern - 2) pattern) wildcard
    then match_prefix (take (length pattern - 2) pattern) actual
    else false

unfoldable pub make_not_found_result : Bytes → HandlerResult
make_not_found_result request_id = record {
  success = false;
  http_status_code = 404;
  error_message = b'N' ∷ b'o' ∷ b't' ∷ b' ' ∷ b'F' ∷ b'o' ∷ b'u' ∷ b'n' ∷ b'd' ∷ [];
  request_id = request_id;
  resource_id = [];
}

abbrev pub matches_route : {W : Type 0} → RouteEntry W → RequestView → Bool
matches_route route view =
    match_method route.method view.method && match_path route.path_pattern view.path

-- The loop over the routes, then the fallback.
unfoldable pub dispatch_from :
    {W : Type 0} → List (RouteEntry W) → Option (HandlerFn W) → HandlerFn W
unfolding make_not_found_result
dispatch_from [] none view w = (make_not_found_result view.request_id, view, w)
dispatch_from [] (some fallback) view w = fallback view w
dispatch_from (route ∷ routes) fallback view w =
    let rest = dispatch_from routes fallback view w in
    if matches_route route view then route.handler view w else rest

unfoldable pub dispatch : {W : Type 0} → RouterDispatcher W → HandlerFn W
unfolding dispatch_from
dispatch router view w = dispatch_from router.routes router.fallback view w

-- No route matches.
abbrev pub AllMiss : {W : Type 0} → List (RouteEntry W) → RequestView → Type 0
AllMiss [] view = Unit {0}
AllMiss (route ∷ routes) view = (matches_route route view ≡ false) × AllMiss routes view

dispatch_from-first :
    {W : Type 0} (before : List (RouteEntry W)) (route : RouteEntry W) (after : List (RouteEntry W))
    (fallback : Option (HandlerFn W)) (view : RequestView) (w : W)
    → AllMiss before view
    → matches_route route view ≡ true
    → dispatch_from (before ++ route ∷ after) fallback view w ≡ route.handler view w
unfolding dispatch_from
dispatch_from-first [] route after fallback view w miss hit = rw hit refl
dispatch_from-first (r ∷ before) route after fallback view w miss hit =
    rw (miss.0) (dispatch_from-first before route after fallback view w miss.1 hit)

dispatch_from-none :
    {W : Type 0} (routes : List (RouteEntry W)) (fallback : Option (HandlerFn W))
    (view : RequestView) (w : W)
    → AllMiss routes view
    → dispatch_from routes fallback view w ≡ dispatch_from [] fallback view w
unfolding dispatch_from
dispatch_from-none [] fallback view w miss = refl
dispatch_from-none (r ∷ routes) fallback view w miss =
    rw (miss.0) (dispatch_from-none routes fallback view w miss.1)

-- The answer to a request for which there is no handler.
abbrev pub not_found : Bytes → HandlerResult
not_found request_id = record {
  success = false;
  http_status_code = 404;
  error_message = b'N' ∷ b'o' ∷ b't' ∷ b' ' ∷ b'F' ∷ b'o' ∷ b'u' ∷ b'n' ∷ b'd' ∷ [];
  request_id = request_id;
  resource_id = [];
}

-- Of the routes that match a request, the one that was registered first answers it, whatever comes
-- after it; when none matches, the fallback answers, or else, without any effect, a failure with the
-- status 404, the message "Not Found" and the identifier of the request.
pub dispatch_lem :
    {W : Type 0} (router : RouterDispatcher W) (view : RequestView) (w : W)
    → ((before : List (RouteEntry W)) (route : RouteEntry W) (after : List (RouteEntry W))
        → router.routes ≡ before ++ route ∷ after
        → AllMiss before view
        → matches_route route view ≡ true
        → dispatch router view w ≡ route.handler view w)
      × (AllMiss router.routes view
          → ((fallback : HandlerFn W)
              → router.fallback ≡ some fallback
              → dispatch router view w ≡ fallback view w)
            × (router.fallback ≡ none
                → dispatch router view w ≡ (not_found view.request_id, view, w)))
unfolding dispatch dispatch_from make_not_found_result
dispatch_lem router view w = (
  λ before route after e miss hit.
      rw e (dispatch_from-first before route after router.fallback view w miss hit),
  λ miss. (
    λ fallback e. rw e (dispatch_from-none router.routes (some fallback) view w miss),
    λ e. rw e (dispatch_from-none router.routes none view w miss),
  ),
)
