-- ===== src/Tests/AdminTests.antt =====
-- The administration's theorems at a client that counts what it is sent.
use watch_tower.Common.{
  ℕ, ◌+◌, ◌≡◌, ◌⊎◌, refl, [], ◌∷◌, codes, ok, err, failure, false, true, ◌≢◌, text_eq, text_eq_iff,
  split_at, arith,
}
use watch_tower.Common.Int.{pos, negsuc}
use watch_tower.Redis.Batch.RoundTrip.{message_of}
use watch_tower.Api.Auth.{status}
use watch_tower.Admin.{
  XPendingArgs, XClaimArgs, AdminClient, claim_messages, pending_details, acknowledge_messages,
}
use watch_tower.Admin.UseCase.{get_pending_messages}
use watch_tower.Admin.Handlers.{
  Formats, handle_pending_messages, count_of, answer, respond_with_json, handle_acknowledge,
}
use watch_tower.Admin.Router.{
  AdminRequest, acknowledge, admin_router, admin_server, serve_endpoint, clean_segments, is_clean,
  find_route, bind_path, knows_path,
}
use watch_tower.Admin.Router.Routed.{IsSegment, admin_router-admin_path}
use watch_tower.Admin.Router.ReadOnly.{IsReading, other_methods_keep}
use watch_tower.Common.Assoc.{lookup}
use watch_tower.Admin.Guards.{
  IsBoundedRead, handle_pending_messages-IsBoundedRead, claim_finds_nothing,
}
use watch_tower.Tests.Data.{published, shift_codec}

abbrev client : AdminClient ℕ
client = record {
  x_info_groups = λ _ s. (ok [], s);
  x_info_consumers = λ _ _ s. (ok [], s);
  x_pending = λ _ _ s. (err (failure (codes "down")), s);
  x_pending_ext = λ _ s. (ok [], s + 1);
  x_claim = λ _ s. (ok (message_of published ∷ []), s + 1);
  x_ack = λ _ _ _ s. (ok 1, s + 1);
  x_trim_max_len = λ _ _ s. (ok 3, s + 1);
}

-- Formats that give the same answer to every text.
abbrev formats : Formats
formats = record {
  parse_int = λ t. ok (negsuc 4);
  parse_duration = λ t. ok (pos 0);
  decode_claim = λ t. err (failure (codes "claim"));
  decode_ids = λ t. ok (t ∷ []);
  decode_max_len = λ t. ok (pos 7);
  marshal = λ p. ok [];
}

handle_pending_messages-IsBoundedRead_example :
    (handle_pending_messages client shift_codec formats (codes "s") (codes "g") [] [] (codes "-5") 0
      ≡ (status 400, 0))
    ⊎ ((args : XPendingArgs) × IsBoundedRead args
        × (args.stream ≡ codes "s")
        × (args.group ≡ codes "g")
        × (args.consumer ≡ [])
        × ((handle_pending_messages client shift_codec formats
              (codes "s")
              (codes "g")
              []
              []
              (codes "-5")
              0).1
            ≡ (client.x_pending_ext args 0).1))
handle_pending_messages-IsBoundedRead_example =
    handle_pending_messages-IsBoundedRead client shift_codec formats (codes "s") (codes "g") [] []
      (codes "-5") 0

abbrev claim : XClaimArgs
claim = record {
  stream = codes "log_events";
  group = codes "g";
  consumer = codes "c";
  min_idle = pos 0;
  messages = codes "1-0" ∷ [];
}

claim_finds_nothing_example : claim_messages client shift_codec claim 0 ≡ (ok [], 1)
claim_finds_nothing_example = claim_finds_nothing client shift_codec claim (published ∷ []) 0 refl

pending_answered :
    handle_pending_messages client shift_codec formats (codes "s") (codes "g") [] [] (codes "-5") 0
    ≡ (status 200, 1)
unfolding handle_pending_messages count_of get_pending_messages pending_details answer
    respond_with_json
pending_answered = refl

log_events-IsSegment : IsSegment (codes "log_events")
unfolding text_eq
log_events-IsSegment = record {
  first = b'l';
  others = codes "og_events";
  starts = refl;
  slashless = (refl, (refl, (refl, (refl, (refl, (refl, (refl, (refl, (refl, (refl, tt))))))))));
  no_dot = refl;
  no_dots = refl;
}

g-IsSegment : IsSegment (codes "g")
unfolding text_eq
g-IsSegment = record {
  first = b'g';
  others = [];
  starts = refl;
  slashless = (refl, tt);
  no_dot = refl;
  no_dots = refl;
}

abbrev acknowledge_request : AdminRequest
acknowledge_request = record {
  method = codes "POST";
  path = codes "/admin/streams/log_events/groups/g/ack";
  consumer = [];
  start = [];
  count = [];
  body = codes "1-0";
}

admin_router-admin_path_example :
    admin_router client shift_codec formats acknowledge_request 0
    ≡ serve_endpoint client shift_codec formats acknowledge
        (codes "log_events")
        (codes "g")
        acknowledge_request
        0
admin_router-admin_path_example =
    admin_router-admin_path client shift_codec formats acknowledge (codes "log_events") (codes "g")
      acknowledge_request 0 log_events-IsSegment g-IsSegment refl refl

acknowledged : admin_router client shift_codec formats acknowledge_request 0 ≡ (status 200, 1)
unfolding admin_router serve_endpoint clean_segments is_clean split_at text_eq find_route bind_path
    lookup handle_acknowledge acknowledge_messages answer respond_with_json
acknowledged = refl

-- The client, where its reads count nothing.
abbrev reader : AdminClient ℕ
reader = record client { x_pending_ext = λ _ s. (ok [], s) }

reader-IsReading : IsReading reader shift_codec formats
reader-IsReading = record {
  groups = λ _ s. refl;
  consumers = λ _ _ s. refl;
  pending = λ _ _ s. refl;
  details = λ _ s. refl;
}

abbrev get_ack : AdminRequest
get_ack = record acknowledge_request { method = codes "GET" }

not_allowed :
    (admin_server reader shift_codec formats (λ s. (status 200, s)) get_ack 5).0 ≡ status 405
unfolding admin_server admin_router serve_endpoint clean_segments is_clean split_at text_eq
    find_route bind_path knows_path lookup
not_allowed = refl

get_is_not_post : codes "GET" ≢ codes "POST"
unfolding text_eq
get_is_not_post same =
    let apart : text_eq (codes "GET") (codes "POST") ≡ false = refl in
    let equal : text_eq (codes "GET") (codes "POST") ≡ true =
      (text_eq_iff (codes "GET") (codes "POST")).1 same in
    absurd (ground arith)

other_methods_keep_example :
    (admin_server reader shift_codec formats (λ s. (status 200, s)) get_ack 5).1 ≡ 5
other_methods_keep_example =
    other_methods_keep reader shift_codec formats (λ s. (status 200, s)) get_ack 5 reader-IsReading
      (λ s. refl) get_is_not_post
