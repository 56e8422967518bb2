-- ===== src/Admin/Router.antt =====
-- internal/adapter/api/admin_router.go, and the server that cmd/ingest/main.go starts beside the
-- ingest server: the patterns of http.ServeMux, for paths with nothing escaped in them. CONNECT is left
-- out.
pub mod Routed
pub mod ReadOnly
use watch_tower.Common.{
  ℕ, Bool, true, false, not, ◌&&◌, ◌||◌, Option, none, some, List, [], ◌∷◌, if◌then◌else◌, Text,
  codes, text_eq, is_empty, split_at,
}
use watch_tower.Common.Assoc.{Assoc, lookup}
use watch_tower.Domain.Codec.{Codec}
use watch_tower.Api.Auth.{status, Handler}
use watch_tower.Admin.{AdminClient}
use watch_tower.Admin.Handlers.{
  Formats, handle_health_check, handle_group_info, handle_consumer_info, handle_pending_summary,
  handle_pending_messages, handle_claim, handle_acknowledge, handle_trim,
}

-- A request with the query values that are read, and its body.
pub record AdminRequest : Type 0 where
  pub method : Text
  pub path : Text
  pub consumer : Text
  pub start : Text
  pub count : Text
  pub body : Text

pub data Segment : Type 0 where
  literal : Text → Segment
  named : Text → Segment

-- The handler's methods.
pub data Endpoint : Type 0 where
  health_check group_info consumer_info pending_summary pending_messages claim acknowledge trim :
      Endpoint

pub record Route : Type 0 where
  pub method : Text
  pub pattern : List Segment
  pub endpoint : Endpoint

abbrev pub of_stream : List Segment → List Segment
of_stream rest =
    literal (codes "admin") ∷ literal (codes "streams") ∷ named (codes "streamName") ∷ rest

abbrev pub of_group : List Segment → List Segment
of_group rest = of_stream (literal (codes "groups") ∷ named (codes "groupName") ∷ rest)

abbrev pub get_route : Endpoint → List Segment → Route
get_route e p = record { method = codes "GET"; pattern = p; endpoint = e }

abbrev pub post_route : Endpoint → List Segment → Route
post_route e p = record { method = codes "POST"; pattern = p; endpoint = e }

abbrev pub routes : List Route
routes =
    get_route health_check (literal (codes "health") ∷ [])
    ∷ get_route group_info (of_stream (literal (codes "groups") ∷ []))
    ∷ get_route consumer_info (of_group (literal (codes "consumers") ∷ []))
    ∷ get_route pending_summary (of_group (literal (codes "pending") ∷ []))
    ∷ get_route pending_messages
        (of_group (literal (codes "pending") ∷ literal (codes "messages") ∷ []))
    ∷ post_route claim (of_group (literal (codes "claim") ∷ []))
    ∷ post_route acknowledge (of_group (literal (codes "ack") ∷ []))
    ∷ post_route trim (of_stream (literal (codes "trim") ∷ []))
    ∷ []

-- The mux sends a request whose path is not clean to the clean one. Only the last segment of a clean
-- path may be empty, behind a slash.
unfoldable pub is_clean : List Text → Bool
is_clean [] = true
is_clean (p ∷ []) = not (text_eq p (codes ".")) && not (text_eq p (codes ".."))
is_clean (p ∷ q ∷ ps) =
    let rest = is_clean (q ∷ ps) in
    not (is_empty p) && not (text_eq p (codes ".")) && not (text_eq p (codes "..")) && rest

-- The segments behind the first slash.
unfoldable pub clean_segments : List Text → Option (List Text)
unfolding is_clean
clean_segments [] = none
clean_segments (p ∷ ps) = if is_empty p && not (is_empty ps) && is_clean ps then some ps else none

-- The values of the names of a pattern. A name takes one segment, and not an empty one.
unfoldable pub bind_path : List Segment → List Text → Option (Assoc Text)
bind_path [] [] = some []
bind_path [] (x ∷ xs) = none
bind_path (p ∷ ps) [] = none
bind_path (literal t ∷ ps) (x ∷ xs) =
    let rest = bind_path ps xs in if text_eq t x then rest else none
bind_path (named n ∷ ps) (x ∷ xs) =
    let rest = bind_path ps xs in
    if is_empty x then none else elim rest [ none ↦ none | some vs ↦ some ((n, x) ∷ vs) ]

-- A pattern for GET takes HEAD too.
abbrev pub allows : Text → Text → Bool
allows wanted method =
    text_eq wanted method || (text_eq wanted (codes "GET") && text_eq method (codes "HEAD"))

unfoldable pub find_route : List Route → Text → List Text → Option (Endpoint × Assoc Text)
unfolding bind_path
find_route [] method path = none
find_route (r ∷ rs) method path =
    let rest = find_route rs method path in
    if allows r.method method
    then elim (bind_path r.pattern path) [ none ↦ rest | some vs ↦ some (r.endpoint, vs) ]
    else rest

unfoldable pub knows_path : List Route → List Text → Bool
unfolding bind_path
knows_path [] path = false
knows_path (r ∷ rs) path =
    let rest = knows_path rs path in
    elim (bind_path r.pattern path) [ none ↦ rest | some vs ↦ true ]

-- r.PathValue
abbrev pub path_value : Text → Assoc Text → Text
path_value name vs = elim (lookup name vs) [ none ↦ [] | some v ↦ v ]

module _ {S : Type 0} (client : AdminClient S) (codec : Codec) (formats : Formats) where
  unfoldable pub serve_endpoint : Endpoint → Text → Text → AdminRequest → Handler S
  serve_endpoint health_check stream group req s = handle_health_check client codec formats s
  serve_endpoint group_info stream group req s = handle_group_info client codec formats stream s
  serve_endpoint consumer_info stream group req s =
      handle_consumer_info client codec formats stream group s
  serve_endpoint pending_summary stream group req s =
      handle_pending_summary client codec formats stream group s
  serve_endpoint pending_messages stream group req s =
      handle_pending_messages client codec formats stream group req.consumer req.start req.count s
  serve_endpoint claim stream group req s =
      handle_claim client codec formats stream group req.body s
  serve_endpoint acknowledge stream group req s =
      handle_acknowledge client codec formats stream group req.body s
  serve_endpoint trim stream group req s = handle_trim client codec formats stream req.body s

  unfoldable pub admin_router : AdminRequest → Handler S
  unfolding clean_segments find_route knows_path serve_endpoint
  admin_router req s = elim (clean_segments (split_at b'/' req.path)) [
    | none ↦ (status 301, s)
    | some path ↦ elim (find_route routes req.method path) [
      | some (e, vs) ↦
          serve_endpoint e (path_value (codes "streamName") vs) (path_value (codes "groupName") vs)
            req s
      | none ↦ if knows_path routes path then (status 405, s) else (status 404, s)
    ]
  ]

  -- The mux of the server: promhttp for its one path, the router for all others.
  unfoldable pub admin_server : Handler S → AdminRequest → Handler S
  unfolding admin_router
  admin_server metrics req s =
      if text_eq req.path (codes "/metrics") then metrics s else admin_router req s
