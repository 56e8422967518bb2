-- ===== src/LoadTester.antt =====
-- tools/load-tester/main.go: the workers that send events to the ingest server, and their counters. What
-- the server and the libraries do is a world that all workers share. The reading of the flags and the
-- printing of the results are left out.
pub mod Counted
use watch_tower.Common.{
  ℕ, suc, ◌+◌, ◌==◌, Bool, List, [], ◌∷◌, ◌++◌, if◌then◌else◌, Text, codes, Op, Done, Result, ok,
  err,
}
use watch_tower.Wal.Files.{digits_from}

-- The flags that a worker reads.
pub record Options : Type 0 where
  pub target_url : Text
  pub api_key : Text

pub record Outgoing : Type 0 where
  pub url : Text
  pub body : Text
  pub content_type : Text
  pub api_key : Text

-- ctx.Done, limiter.Wait, uuid.NewString, time.Now in its format, the error of
-- http.NewRequestWithContext for the method POST, and client.Do with the status of the response.
pub record Environment (S : Type 0) : Type 0 where
  pub is_done : S → Bool
  pub wait : Op S Unit
  pub new_id : S → Text × S
  pub now : S → Text × S
  pub check_url : Text → Done
  pub send : Outgoing → Op S ℕ

-- The two counters.
pub record Counts : Type 0 where
  pub success : ℕ
  pub errors : ℕ

abbrev pub add_success : Counts → Counts
add_success c = record c { success = suc c.success }

abbrev pub add_error : Counts → Counts
add_error c = record c { errors = suc c.errors }

unfoldable pub payload : Text → ℕ → Text → Text
payload id worker time =
    codes "{\"event_id\": \""
    ++ (id
        ++ (codes "\", \"message\": \"load test event from worker "
            ++ (digits_from (suc worker) worker
                ++ (codes "\", \"timestamp\": \"" ++ (time ++ codes "\"}")))))

-- What a response, or the lack of one, adds to the counters.
unfoldable pub count_response : Result ℕ → Counts → Counts
count_response (err _) c = add_error c
count_response (ok code) c = if code == 202 then add_success c else add_error c

module _ {S : Type 0} (env : Environment S) (options : Options) where
  abbrev pub request_of : Text → Outgoing
  request_of body = record {
    url = options.target_url;
    body = body;
    content_type = codes "application/json";
    api_key = options.api_key;
  }

  -- One pass of the loop of a worker. The error of the limiter is ignored.
  unfoldable pub turn : ℕ → S × Counts → S × Counts
  unfolding payload count_response
  turn worker (s, c) =
      if env.is_done s
      then (s, c)
      else (let (_, s1) = env.wait s in
          let (id, s2) = env.new_id s1 in
          let (time, s3) = env.now s2 in
          elim (env.check_url options.target_url) [
            | err _ ↦ (s3, c)
            | ok _ ↦
                let (r, s4) = env.send (request_of (payload id worker time)) s3 in
                (s4, count_response r c)
          ])

  -- The passes of all workers in the order in which they come.
  unfoldable pub turns : List ℕ → S × Counts → S × Counts
  unfolding turn
  turns [] p = p
  turns (w ∷ ws) p = turns ws (turn w p)

abbrev pub total_requests : Counts → ℕ
total_requests c = c.success + c.errors
