-- ===== src/Admin/Router/Routed.antt =====
-- Each path of the administration gets to its handler (internal/adapter/api/admin_router.go).
use watch_tower.Common.{
  ℕ, ◌≡◌, refl, ◌∙◌, ap, false, some, List, [], ◌∷◌, ◌++◌, arith, All, ◌==◌, Text, codes, text_eq,
  split_at, split_at-append,
}
use watch_tower.Common.Assoc.{Assoc, lookup}
use watch_tower.Domain.Codec.{Codec}
use watch_tower.Admin.{AdminClient}
use watch_tower.Admin.Handlers.{Formats}
use watch_tower.Admin.Router.{
  AdminRequest, Endpoint, health_check, group_info, consumer_info, pending_summary,
  pending_messages, claim, acknowledge, trim, routes, is_clean, clean_segments, bind_path,
  find_route, path_value, serve_endpoint, admin_router,
}

-- A name that is one segment of a clean path.
pub record IsSegment (s : Text) : Type 0 where
  pub first : ℕ
  pub others : Text
  pub starts : s ≡ first ∷ others
  pub slashless : All (λ x. (x == b'/') ≡ false) s
  pub no_dot : text_eq s (codes ".") ≡ false
  pub no_dots : text_eq s (codes "..") ≡ false

abbrev pub in_stream : Text → Text → Text
in_stream s rest = codes "/admin/streams/" ++ (s ++ rest)

abbrev pub in_group : Text → Text → Text → Text
in_group s g rest = in_stream s (codes "/groups/" ++ (g ++ rest))

-- The paths and methods as the comments of the handlers give them.
abbrev pub admin_path : Endpoint → Text → Text → Text
admin_path health_check s g = codes "/health"
admin_path group_info s g = in_stream s (codes "/groups")
admin_path consumer_info s g = in_group s g (codes "/consumers")
admin_path pending_summary s g = in_group s g (codes "/pending")
admin_path pending_messages s g = in_group s g (codes "/pending/messages")
admin_path claim s g = in_group s g (codes "/claim")
admin_path acknowledge s g = in_group s g (codes "/ack")
admin_path trim s g = in_stream s (codes "/trim")

abbrev pub admin_method : Endpoint → Text
admin_method claim = codes "POST"
admin_method acknowledge = codes "POST"
admin_method trim = codes "POST"
admin_method _ = codes "GET"

abbrev stream_segments : Text → List Text → List Text
stream_segments s rest = codes "admin" ∷ codes "streams" ∷ s ∷ rest

abbrev group_segments : Text → Text → List Text → List Text
group_segments s g rest = stream_segments s (codes "groups" ∷ g ∷ rest)

abbrev segments_of : Endpoint → Text → Text → List Text
segments_of health_check s g = codes "health" ∷ []
segments_of group_info s g = stream_segments s (codes "groups" ∷ [])
segments_of consumer_info s g = group_segments s g (codes "consumers" ∷ [])
segments_of pending_summary s g = group_segments s g (codes "pending" ∷ [])
segments_of pending_messages s g = group_segments s g (codes "pending" ∷ codes "messages" ∷ [])
segments_of claim s g = group_segments s g (codes "claim" ∷ [])
segments_of acknowledge s g = group_segments s g (codes "ack" ∷ [])
segments_of trim s g = stream_segments s (codes "trim" ∷ [])

split-in_stream :
    (s rest : Text)
    → All (λ x. (x == b'/') ≡ false) s
    → split_at b'/' (in_stream s (b'/' ∷ rest)) ≡ [] ∷ stream_segments s (split_at b'/' rest)
unfolding split_at
split-in_stream s rest slashless =
    ap (λ ps. [] ∷ codes "admin" ∷ codes "streams" ∷ ps) (split_at-append b'/' s rest slashless)

split-in_group :
    (s g rest : Text)
    → All (λ x. (x == b'/') ≡ false) s
    → All (λ x. (x == b'/') ≡ false) g
    → split_at b'/' (in_group s g (b'/' ∷ rest)) ≡ [] ∷ group_segments s g (split_at b'/' rest)
unfolding split_at
split-in_group s g rest slashless slashless' =
    split-in_stream s (codes "groups/" ++ (g ++ b'/' ∷ rest)) slashless
    ∙ ap (λ ps. [] ∷ stream_segments s (codes "groups" ∷ ps))
        (split_at-append b'/' g rest slashless')

split-admin_path :
    (e : Endpoint) (s g : Text)
    → All (λ x. (x == b'/') ≡ false) s
    → All (λ x. (x == b'/') ≡ false) g
    → split_at b'/' (admin_path e s g) ≡ [] ∷ segments_of e s g
unfolding split_at
split-admin_path health_check s g hs hg = refl
split-admin_path group_info s g hs hg = split-in_stream s (codes "groups") hs
split-admin_path consumer_info s g hs hg = split-in_group s g (codes "consumers") hs hg
split-admin_path pending_summary s g hs hg = split-in_group s g (codes "pending") hs hg
split-admin_path pending_messages s g hs hg = split-in_group s g (codes "pending/messages") hs hg
split-admin_path claim s g hs hg = split-in_group s g (codes "claim") hs hg
split-admin_path acknowledge s g hs hg = split-in_group s g (codes "ack") hs hg
split-admin_path trim s g hs hg = split-in_stream s (codes "trim") hs

clean_segments_of :
    (e : Endpoint) (s g : Text)
    → IsSegment s
    → IsSegment g
    → clean_segments ([] ∷ segments_of e s g) ≡ some (segments_of e s g)
unfolding clean_segments is_clean text_eq
clean_segments_of health_check s g hs hg = refl
clean_segments_of group_info s g hs hg = ground (arith, hs.starts, hs.no_dot, hs.no_dots)
clean_segments_of consumer_info s g hs hg =
    ground (arith, hs.starts, hs.no_dot, hs.no_dots, hg.starts, hg.no_dot, hg.no_dots)
clean_segments_of pending_summary s g hs hg =
    ground (arith, hs.starts, hs.no_dot, hs.no_dots, hg.starts, hg.no_dot, hg.no_dots)
clean_segments_of pending_messages s g hs hg =
    ground (arith, hs.starts, hs.no_dot, hs.no_dots, hg.starts, hg.no_dot, hg.no_dots)
clean_segments_of claim s g hs hg =
    ground (arith, hs.starts, hs.no_dot, hs.no_dots, hg.starts, hg.no_dot, hg.no_dots)
clean_segments_of acknowledge s g hs hg =
    ground (arith, hs.starts, hs.no_dot, hs.no_dots, hg.starts, hg.no_dot, hg.no_dots)
clean_segments_of trim s g hs hg = ground (arith, hs.starts, hs.no_dot, hs.no_dots)

-- The values of the names in the route that takes the request.
abbrev values_of : Endpoint → Text → Text → Assoc Text
values_of health_check s g = []
values_of group_info s g = (codes "streamName", s) ∷ []
values_of trim s g = (codes "streamName", s) ∷ []
values_of _ s g = (codes "streamName", s) ∷ (codes "groupName", g) ∷ []

found :
    (e : Endpoint) (x y : ℕ) (xs ys : Text)
    → find_route routes (admin_method e) (segments_of e (x ∷ xs) (y ∷ ys))
      ≡ some (e, values_of e (x ∷ xs) (y ∷ ys))
unfolding find_route bind_path text_eq
found health_check x y xs ys = refl
found group_info x y xs ys = refl
found consumer_info x y xs ys = refl
found pending_summary x y xs ys = refl
found pending_messages x y xs ys = refl
found claim x y xs ys = refl
found acknowledge x y xs ys = refl
found trim x y xs ys = refl

module _ {S : Type 0} (client : AdminClient S) (codec : Codec) (formats : Formats) where
  routed :
      (req : AdminRequest) (st : S) (path : List Text) (e : Endpoint) (vs : Assoc Text)
      → clean_segments (split_at b'/' req.path) ≡ some path
      → find_route routes req.method path ≡ some (e, vs)
      → admin_router client codec formats req st
        ≡ serve_endpoint client codec formats e
            (path_value (codes "streamName") vs)
            (path_value (codes "groupName") vs)
            req
            st
  unfolding admin_router
  routed req st path e vs clean there = rw (clean, there, admin_router) refl

  served :
      (e : Endpoint) (s g : Text) (req : AdminRequest) (st : S)
      → serve_endpoint client codec formats e
          (path_value (codes "streamName") (values_of e s g))
          (path_value (codes "groupName") (values_of e s g))
          req
          st
        ≡ serve_endpoint client codec formats e s g req st
  unfolding serve_endpoint lookup text_eq
  served health_check s g req st = refl
  served group_info s g req st = refl
  served consumer_info s g req st = refl
  served pending_summary s g req st = refl
  served pending_messages s g req st = refl
  served claim s g req st = refl
  served acknowledge s g req st = refl
  served trim s g req st = refl

  -- A request whose path and method are those that an endpoint's comment gives, for a stream and a
  -- group whose names are segments of a clean path, is served by that endpoint, which finds both names
  -- as they are.
  pub admin_router-admin_path :
      (e : Endpoint) (s g : Text) (req : AdminRequest) (st : S)
      → IsSegment s
      → IsSegment g
      → req.path ≡ admin_path e s g
      → req.method ≡ admin_method e
      → admin_router client codec formats req st ≡ serve_endpoint client codec formats e s g req st
  admin_router-admin_path e s g req st hs hg path method =
      let clean =
        ap (λ p. clean_segments (split_at b'/' p)) path
        ∙ ap clean_segments (split-admin_path e s g hs.slashless hg.slashless)
        ∙ clean_segments_of e s g hs hg in
      let there : find_route routes req.method (segments_of e s g) ≡ some (e, values_of e s g) =
        rw (method, hs.starts, hg.starts) (found e hs.first hg.first hs.others hg.others) in
      routed req st (segments_of e s g) e (values_of e s g) clean there ∙ served e s g req st
