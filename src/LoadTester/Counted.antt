-- ===== src/LoadTester/Counted.antt =====
-- What the counters of the load tester say (tools/load-tester/main.go).
use watch_tower.Common.{
  ℕ, ◌+◌, ◌==◌, ◌≡◌, refl, Bool, false, not, List, [], ◌∷◌, length, keep, arith, Result, ok, err,
  Bool-cases, Result-cases, inl, inr,
}
use watch_tower.LoadTester.{
  Options, Environment, Counts, payload, request_of, count_response, turn, turns, total_requests,
}

-- A server whose replies are noted, the last first; no reply is an error of the client.
abbrev pub watch_replies : {S : Type 0} → Environment S → Environment (S × List (Result ℕ))
watch_replies env = record {
  is_done = λ (s, t). env.is_done s;
  wait = λ (s, t). let (r, s1) = env.wait s in (r, (s1, t));
  new_id = λ (s, t). let (x, s1) = env.new_id s in (x, (s1, t));
  now = λ (s, t). let (x, s1) = env.now s in (x, (s1, t));
  check_url = env.check_url;
  send = λ req (s, t). let (r, s1) = env.send req s in (r, (s1, r ∷ t));
}

abbrev pub is_accepted : Result ℕ → Bool
is_accepted (ok code) = code == 202
is_accepted (err _) = false

-- The counters agree with the replies.
pub record IsCounted (c : Counts) (replies : List (Result ℕ)) : Type 0 where
  pub success : c.success ≡ length (keep is_accepted replies)
  pub errors : c.errors ≡ length (keep (λ r. not (is_accepted r)) replies)

count_response-IsCounted :
    (r : Result ℕ) (c : Counts) (t : List (Result ℕ))
    → IsCounted c t
    → IsCounted (count_response r c) (r ∷ t)
unfolding count_response keep
count_response-IsCounted (err x) c t h = record {
  success = h.success;
  errors = omega (arith, h.errors);
}
count_response-IsCounted (ok code) c t h = elim (Bool-cases (code == 202)) [
  | inl taken ↦ record { success = ground (arith, h.success); errors = ground (arith, h.errors) }
  | inr other ↦ record { success = ground (arith, h.success); errors = ground (arith, h.errors) }
]

keep_both :
    (p : Result ℕ → Bool) (t : List (Result ℕ))
    → length (keep p t) + length (keep (λ r. not (p r)) t) ≡ length t
unfolding keep
keep_both p [] = refl
keep_both p (r ∷ t) =
    let ih = keep_both p t in
    elim (Bool-cases (p r)) [
      | inl yes_it ↦ rw yes_it (omega (arith, ih))
      | inr no_it ↦ rw no_it (omega (arith, ih))
    ]

module _ {S : Type 0} (env : Environment S) (options : Options) where
  turn-IsCounted :
      (w : ℕ) (s : S) (t : List (Result ℕ)) (c : Counts)
      → IsCounted c t
      → IsCounted
          (turn (watch_replies env) options w ((s, t), c)).1
          (turn (watch_replies env) options w ((s, t), c)).0.1
  unfolding turn
  turn-IsCounted w s t c h = elim (Bool-cases (env.is_done s)) [
    | inl done ↦ rw (done, turn) h
    | inr going ↦ elim (Result-cases (env.check_url options.target_url)) [
      | inr (x, refused) ↦ rw (going, refused, turn) h
      | inl (tt, fine) ↦
          let (_, s1) = env.wait s in
          let (id, s2) = env.new_id s1 in
          let (time, s3) = env.now s2 in
          rw (going, fine, turn)
            (count_response-IsCounted (env.send (request_of env options (payload id w time)) s3).0 c
              t h)
    ]
  ]

  turns-IsCounted :
      (ws : List ℕ) (s : S) (t : List (Result ℕ)) (c : Counts)
      → IsCounted c t
      → IsCounted
          (turns (watch_replies env) options ws ((s, t), c)).1
          (turns (watch_replies env) options ws ((s, t), c)).0.1
  unfolding turns
  turns-IsCounted [] s t c h = h
  turns-IsCounted (w ∷ ws) s t c h =
      let ((s1, t1), c1) = turn (watch_replies env) options w ((s, t), c) in
      turns-IsCounted ws s1 t1 c1 (turn-IsCounted w s t c h)

  -- However many workers there are, and in whatever order their passes come, and whatever the limiter,
  -- the network and the server do: behind them the counter of successes is the number of replies with
  -- the status 202, the counter of errors that of all other replies, where a request that got none
  -- counts as such, and the total that is printed is the number of requests that were sent.
  pub turns_count_replies :
      (ws : List ℕ) (s : S)
      → ((turns
            (watch_replies env)
            options
            ws
            ((s, []), record { success = 0; errors = 0 })).1.success
          ≡ length (
              keep is_accepted
                (turns
                  (watch_replies env)
                  options
                  ws
                  ((s, []), record { success = 0; errors = 0 })).0.1))
        × (total_requests
              (turns (watch_replies env) options ws ((s, []), record { success = 0; errors = 0 })).1
            ≡ length
                (turns
                  (watch_replies env)
                  options
                  ws
                  ((s, []), record { success = 0; errors = 0 })).0.1)
  unfolding keep
  turns_count_replies ws s =
      let ((s1, t), c) =
        turns (watch_replies env) options ws ((s, []), record { success = 0; errors = 0 }) in
      let h =
        turns-IsCounted ws s [] (record { success = 0; errors = 0 })
          (record { success = refl; errors = refl }) in
      (h.success, omega (arith, h.success, h.errors, keep_both is_accepted t))
