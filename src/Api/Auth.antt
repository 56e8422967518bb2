-- ===== src/Api/Auth.antt =====
-- internal/adapter/api/middleware/auth.go. A handler is an action on a state that replies with a
-- status, or panics, which net/http turns into a broken connection.
use watch_tower.Common.{
  ℕ, ◌≡◌, ◌⊎◌, inl, inr, true, false, if◌then◌else◌, Text, ok, err, is_empty, not, arith,
  Result-cases, Bool-cases,
}
use watch_tower.Domain.{ApiKeyRepository}

pub data Reply : Type 0 where
  status : ℕ → Reply
  panicked : Reply

abbrev pub Handler : Type 0 → Type 0
Handler S = S → Reply × S

-- The middleware, for a request with this value of the header X-API-Key, empty if it is missing.
unfoldable pub auth : {S : Type 0} → ApiKeyRepository S → Text → Handler S → Handler S
auth repo api_key next s =
    if is_empty api_key
    then (status 401, s)
    else (let (v, s1) = repo.is_valid api_key s in
        elim v [
          | err _ ↦ (status 500, s1)
          | ok valid ↦ if not valid then (status 401, s1) else next s1
        ])

-- The protected handler runs only behind a positive answer of the repository for the request's
-- key: otherwise the reply is 401 or 500, and the state is the one that the repository's check left,
-- or the state before where there is no key to check.
pub auth_protects :
    {S : Type 0} (repo : ApiKeyRepository S) (api_key : Text) (next : Handler S) (s : S)
    → ((is_empty api_key ≡ false)
        × ((repo.is_valid api_key s).0 ≡ ok true)
        × (auth repo api_key next s ≡ next (repo.is_valid api_key s).1))
      ⊎ ((((auth repo api_key next s).0 ≡ status 401) ⊎ ((auth repo api_key next s).0 ≡ status 500))
          × (((auth repo api_key next s).1 ≡ s)
              ⊎ ((auth repo api_key next s).1 ≡ (repo.is_valid api_key s).1)))
unfolding auth
auth_protects repo api_key next s = elim (Bool-cases (is_empty api_key)) [
  | inl missing ↦ inr (inl (ground arith), inl (ground arith))
  | inr given ↦ elim (Result-cases (repo.is_valid api_key s).0) [
    | inr (e, failed) ↦ inr (inr (ground arith), inr (ground arith))
    | inl (valid, answered) ↦ elim (Bool-cases valid) [
      | inl positive ↦ inl (given, ground arith, ground arith)
      | inr negative ↦ inr (inl (ground arith), inr (ground arith))
    ]
  ]
]
