-- ===== src/Admin/Guards.antt =====
-- Which commands the handlers let through to Redis, and what they make of the answers
-- (internal/adapter/api/handler/admin_handler.go).
use watch_tower.Common.{
  ℕ, zero, suc, ◌≡◌, ◌⊎◌, inl, inr, refl, ap, ◌∙◌, false, List, [], ◌∷◌, map, arith, if◌then◌else◌,
  Text, codes, Result, ok, err, Result-cases, Bool-cases, is_empty,
}
use watch_tower.Common.Int.{ℤ, pos, negsuc, is_nonpos}
use watch_tower.Domain.Codec.{Codec}
use watch_tower.Redis.Batch.RoundTrip.{Published, message_of, decode_messages_data}
use watch_tower.Api.Auth.{status}
use watch_tower.Admin.{
  XPendingArgs, XClaimArgs, AdminClient, claim_messages, pending_details, trim_stream,
}
use watch_tower.Admin.UseCase.{get_pending_messages}
use watch_tower.Admin.Handlers.{
  Payload, details, Formats, use_case, answer, count_of, handle_pending_messages, handle_trim,
}

positive : (n : ℤ) → is_nonpos n ≡ false → (m : ℕ) × (n ≡ pos (suc m))
positive (pos zero) h = absurd (ground arith)
positive (pos (suc m)) h = (m, refl)
positive (negsuc m) h = absurd (ground arith)

-- A read of pending messages that is bounded: with a positive count, and a start.
pub record IsBoundedRead (args : XPendingArgs) : Type 0 where
  pub above : ℕ
  pub positive_count : args.count ≡ pos (suc above)
  pub has_start : is_empty args.start ≡ false

limit_positive : (n : ℤ) → is_nonpos (if is_nonpos n then pos 100 else n) ≡ false
limit_positive n = elim (Bool-cases (is_nonpos n)) [
  | inl none_given ↦ rw none_given refl
  | inr given ↦ rw given given
]

start_given : (start : Text) → is_empty (if is_empty start then codes "-" else start) ≡ false
start_given [] = refl
start_given (x ∷ xs) = refl

args_of : Text → Text → Text → Text → ℤ → XPendingArgs
args_of stream group consumer start n = record {
  stream = stream;
  group = group;
  start = if is_empty start then codes "-" else start;
  end = codes "+";
  count = if is_nonpos n then pos 100 else n;
  consumer = consumer;
}

args_of-IsBoundedRead :
    (stream group consumer start : Text) (n : ℤ)
    → IsBoundedRead (args_of stream group consumer start n)
unfolding args_of
args_of-IsBoundedRead stream group consumer start n =
    let (m, e) = positive (if is_nonpos n then pos 100 else n) (limit_positive n) in
    record { above = m; positive_count = e; has_start = start_given start }

module _ {S : Type 0} (client : AdminClient S) (codec : Codec) (formats : Formats) where
  answer_state :
      {A : Type 0} (f : A → Payload) (p : Result A × S) → (answer client codec formats f p).1 ≡ p.1
  unfolding answer
  answer_state f (ok a, s) = refl
  answer_state f (err e, s) = refl

  -- A request for pending messages is refused with 400 and sends nothing to Redis, or it sends
  -- exactly one XPENDING, for the stream, the group and the consumer of the request, with a positive
  -- count and a start, whatever the request says.
  pub handle_pending_messages-IsBoundedRead :
      (stream group consumer start count_text : Text) (s : S)
      → (handle_pending_messages client codec formats stream group consumer start count_text s
          ≡ (status 400, s))
        ⊎ ((args : XPendingArgs) × IsBoundedRead args
            × (args.stream ≡ stream)
            × (args.group ≡ group)
            × (args.consumer ≡ consumer)
            × ((handle_pending_messages client codec formats stream group consumer start count_text
                  s).1
                ≡ (client.x_pending_ext args s).1))
  unfolding handle_pending_messages get_pending_messages pending_details args_of
  handle_pending_messages-IsBoundedRead stream group consumer start count_text s =
      elim (Result-cases (count_of client codec formats count_text)) [
        | inr (e, refused) ↦ inl (ground arith)
        | inl (n, parsed) ↦
            let args = args_of stream group consumer start n in
            let p =
              get_pending_messages (use_case client codec formats) stream group consumer start n
                s in
            let e : handle_pending_messages client codec formats stream group consumer start
                  count_text s
                ≡ answer client codec formats details p =
              ground arith in
            inr (
              args,
              args_of-IsBoundedRead stream group consumer start n,
              refl,
              refl,
              refl,
              ap (λ q. q.1) e ∙ answer_state details p,
            )
      ]

  -- A request to trim a stream is refused with 400 and sends nothing to Redis, or it sends exactly
  -- one XTRIM, with a positive length: no request empties a stream.
  pub handle_trim_keeps :
      (stream body : Text) (s : S)
      → (handle_trim client codec formats stream body s ≡ (status 400, s))
        ⊎ ((m : ℕ) × (formats.decode_max_len body ≡ ok (pos (suc m)))
            × ((handle_trim client codec formats stream body s).1
                ≡ (client.x_trim_max_len stream (pos (suc m)) s).1))
  unfolding handle_trim trim_stream
  handle_trim_keeps stream body s = elim (Result-cases (formats.decode_max_len body)) [
    | inr (e, refused) ↦ inl (ground arith)
    | inl (n, decoded) ↦ elim (Bool-cases (is_nonpos n)) [
      | inl below ↦ inl (ground arith)
      | inr above ↦
          let (m, same) = positive n above in
          let p = trim_stream client codec stream n s in
          let e : handle_trim client codec formats stream body s
              ≡ answer client codec formats Payload.count p =
            ground arith in
          inr (
            m,
            decoded ∙ ap ok same,
            ap (λ q. q.1) e
                ∙ answer_state Payload.count p
                ∙ ap (λ k. (client.x_trim_max_len stream k s).1) same,
          )
    ]
  ]

module _ {S : Type 0} (client : AdminClient S) (codec : Codec) where
  -- If Redis hands over claimed messages with the entries that `bufferLogToRedis` adds for some
  -- events, then `ClaimMessages` returns an empty list and no error, and the state is the one that the
  -- claim left.
  pub claim_finds_nothing :
      (args : XClaimArgs) (ps : List (Published codec)) (s : S)
      → (client.x_claim args s).0 ≡ ok (map message_of ps)
      → claim_messages client codec args s ≡ (ok [], (client.x_claim args s).1)
  unfolding claim_messages
  claim_finds_nothing args ps s handed = ground (arith, decode_messages_data codec ps)
