-- ===== src/Admin/Router/ReadOnly.antt =====
-- Which requests to the administration can change a stream (internal/adapter/api/admin_router.go).
use watch_tower.Common.{
  ◌≡◌, ◌⊎◌, inl, inr, refl, sym, ◌∙◌, false, some, List, [], ◌∷◌, map, arith, Text, codes, text_eq,
  Result, ok, err, Bool-cases, Option-cases, Result-cases, is_empty, split_at, All, text_eq_iff,
  ◌≢◌,
}
use mathlib.Core.Path.{subst}
use watch_tower.Common.Assoc.{Assoc}
use watch_tower.Domain.Codec.{Codec}
use watch_tower.Api.Auth.{Handler}
use watch_tower.Admin.{
  XPendingArgs, AdminClient, map_result, in_context, scale_idle, get_group_info, get_consumer_info,
  get_pending_summary, pending_details,
}
use watch_tower.Admin.UseCase.{get_pending_messages}
use watch_tower.Admin.Handlers.{
  use_case, Payload, groups, consumers, summary, details, Formats, answer, count_of,
  handle_group_info, handle_consumer_info, handle_pending_summary, handle_pending_messages,
}
use watch_tower.Admin.Router.{
  AdminRequest, Endpoint, health_check, group_info, consumer_info, pending_summary,
  pending_messages, claim, acknowledge, trim, Route, routes, clean_segments, bind_path, find_route,
  knows_path, path_value, allows, serve_endpoint, admin_router, admin_server,
}

-- The endpoints that read.
abbrev IsRead : Endpoint → Type 0
IsRead claim = ⊥
IsRead acknowledge = ⊥
IsRead trim = ⊥
IsRead _ = Unit

-- The endpoint that is found is of a route which takes the method.
found-IsRead :
    (rs : List Route) (method : Text) (path : List Text) (e : Endpoint) (vs : Assoc Text)
    → All (λ r. (allows r.method method ≡ false) ⊎ IsRead r.endpoint) rs
    → find_route rs method path ≡ some (e, vs)
    → IsRead e
unfolding find_route
found-IsRead [] method path e vs each there = absurd (ground arith)
found-IsRead (r ∷ rs) method path e vs (each, others) there =
    let ih = found-IsRead rs method path e vs others in
    elim (Bool-cases (allows r.method method)) [
      | inr left ↦ ih (ground (arith))
      | inl taken ↦ elim (Option-cases (bind_path r.pattern path)) [
        | inl unbound ↦ ih (ground arith)
        | inr (ws, bound) ↦
            let same : r.endpoint ≡ e = ground arith in
            elim each [ inl not ↦ absurd (ground arith) | inr reads ↦ subst IsRead same reads ]
      ]
    ]

not_post : (method : Text) → method ≢ codes "POST" → allows (codes "POST") method ≡ false
unfolding text_eq
not_post method other = elim (Bool-cases (text_eq (codes "POST") method)) [
  | inl same ↦ absurd (other (sym ((text_eq_iff (codes "POST") method).0 same)))
  | inr apart ↦ rw apart refl
]

other_routes :
    (method : Text)
    → method ≢ codes "POST"
    → All (λ r. (allows r.method method ≡ false) ⊎ IsRead r.endpoint) routes
other_routes method other =
    let left = not_post method other in
    (inr tt, (inr tt, (inr tt, (inr tt, (inr tt, (inl left, (inl left, (inl left, tt))))))))

module _ {S : Type 0} (client : AdminClient S) (codec : Codec) (formats : Formats) where
  -- The commands that read leave what the client keeps as it is.
  pub record IsReading : Type 0 where
    pub groups : (stream : Text) (s : S) → (client.x_info_groups stream s).1 ≡ s
    pub consumers : (stream group : Text) (s : S) → (client.x_info_consumers stream group s).1 ≡ s
    pub pending : (stream group : Text) (s : S) → (client.x_pending stream group s).1 ≡ s
    pub details : (args : XPendingArgs) (s : S) → (client.x_pending_ext args s).1 ≡ s

  answer_state :
      {A : Type 0} (f : A → Payload) (p : Result A × S) → (answer client codec formats f p).1 ≡ p.1
  unfolding answer
  answer_state f (err e, s) = refl
  answer_state f (ok a, s) = refl

  map_result_state : {A B : Type 0} (f : A → B) (p : Result A × S) → (map_result f p).1 ≡ p.1
  map_result_state f (ok a, s) = refl
  map_result_state f (err e, s) = refl

  group_info_keeps :
      (reading : IsReading) (stream : Text) (s : S)
      → (handle_group_info client codec formats stream s).1 ≡ s
  unfolding handle_group_info get_group_info
  group_info_keeps reading stream s = elim (Bool-cases (is_empty stream)) [
    | inl missing ↦ rw missing refl
    | inr given ↦
        rw given
          (answer_state groups (get_group_info client codec stream s) ∙ reading.groups stream s)
  ]

  consumer_info_keeps :
      (reading : IsReading) (stream group : Text) (s : S)
      → (handle_consumer_info client codec formats stream group s).1 ≡ s
  unfolding handle_consumer_info get_consumer_info
  consumer_info_keeps reading stream group s =
      answer_state consumers (get_consumer_info client codec stream group s)
      ∙ map_result_state (map scale_idle) (
          in_context (codes "failed to get consumer info: ")
            (client.x_info_consumers stream group s))
      ∙ reading.consumers stream group s

  pending_messages_keeps :
      (reading : IsReading) (stream group consumer start count : Text) (s : S)
      → (handle_pending_messages client codec formats stream group consumer start count s).1 ≡ s
  unfolding handle_pending_messages get_pending_messages pending_details
  pending_messages_keeps reading stream group consumer start count s =
      elim (Result-cases (count_of client codec formats count)) [
        | inr (x, refused) ↦ rw (refused, handle_pending_messages) refl
        | inl (n, read) ↦
            rw (read, handle_pending_messages)
              (answer_state details (
                  get_pending_messages (use_case client codec formats) stream group consumer start n
                    s)
                ∙ reading.details _ s)
      ]

  read_keeps :
      (reading : IsReading) (e : Endpoint) (stream group : Text) (req : AdminRequest) (s : S)
      → IsRead e
      → (serve_endpoint client codec formats e stream group req s).1 ≡ s
  unfolding serve_endpoint handle_pending_summary get_pending_summary
  read_keeps reading health_check stream group req s reads = refl
  read_keeps reading group_info stream group req s reads = group_info_keeps reading stream s
  read_keeps reading consumer_info stream group req s reads =
      consumer_info_keeps reading stream group s
  read_keeps reading pending_summary stream group req s reads =
      answer_state summary (get_pending_summary client codec stream group s)
      ∙ reading.pending stream group s
  read_keeps reading pending_messages stream group req s reads =
      pending_messages_keeps reading stream group req.consumer req.start req.count s
  read_keeps reading claim stream group req s reads = absurd reads
  read_keeps reading acknowledge stream group req s reads = absurd reads
  read_keeps reading trim stream group req s reads = absurd reads

  router_keeps :
      (reading : IsReading) (req : AdminRequest) (s : S)
      → req.method ≢ codes "POST"
      → (admin_router client codec formats req s).1 ≡ s
  unfolding admin_router
  router_keeps reading req s other = elim (Option-cases (clean_segments (split_at b'/' req.path))) [
    | inl unclean ↦ rw (unclean, admin_router) refl
    | inr (path, clean) ↦ elim (Option-cases (find_route routes req.method path)) [
      | inl unknown ↦ elim (Bool-cases (knows_path routes path)) [
        | inl known ↦ rw (clean, unknown, known, admin_router) refl
        | inr absent ↦ rw (clean, unknown, absent, admin_router) refl
      ]
      | inr ((e, vs), there) ↦
          rw (clean, there, admin_router)
            (read_keeps reading e (path_value (codes "streamName") vs)
              (path_value (codes "groupName") vs) req s
              (found-IsRead routes req.method path e vs (other_routes req.method other) there))
    ]
  ]

  -- If the commands that read leave what the client keeps as it is, and so does the handler of the
  -- metrics, then a request to the administration's server with another method than POST leaves it as
  -- it is, whatever its path, its query and its body.
  pub other_methods_keep :
      (metrics : Handler S) (req : AdminRequest) (s : S)
      → IsReading
      → ((s' : S) → (metrics s').1 ≡ s')
      → req.method ≢ codes "POST"
      → (admin_server client codec formats metrics req s).1 ≡ s
  unfolding admin_server
  other_methods_keep metrics req s reading shows other =
      elim (Bool-cases (text_eq req.path (codes "/metrics"))) [
        | inl there ↦ rw (there, admin_server) (shows s)
        | inr elsewhere ↦ rw (elsewhere, admin_server) (router_keeps reading req s other)
      ]
