-- ===== src/Service/Ingest/Accepted.antt =====
-- A request to the ingest service from its bytes to the stream or the log (cmd/ingest/main.go).
use watch_tower.Common.{
  ℕ, ◌≡◌, ◌⊎◌, inl, inr, sym, ap, ◌∙◌, Bool, true, false, arith, List, Text, codes, has_prefix, ok,
  is_empty,
}
use mathlib.Core.Path.{subst}
use watch_tower.Domain.{LogEvent}
use watch_tower.Config.{Config}
use watch_tower.ApiKeys
use watch_tower.Ingest.{ingest}
use watch_tower.Ingest.Stored.{IsSameEvent, ingest-IsSameEvent, id_of}
use watch_tower.Redis.Buffer.{Shared, buffer_log_to_redis, buffer_log}
use watch_tower.Redis.Buffer.Outcome.{InStream, InWal, buffer_log_stores}
use watch_tower.Redis.Drain.{World, Answers}
use watch_tower.Api.Auth.{status}
use watch_tower.Api.Ingest.{State}
use watch_tower.Api.Ingest.Accounts.{accepted_json_is_ingested}
use watch_tower.Api.Router.{Incoming}
use watch_tower.Api.Router.Authorized.{ingest_server-IsAuthorized}
use watch_tower.Service.Ingest.{
  Libraries, Plant, repository, api_keys, ingest_log, ingest_handler, serve,
}

module _ {O V H D : Type 0} (lib : Libraries O V H D) (cfg : Config) (options : O)
    (answers : Answers) where
  -- An XADD or a write to the log stored the event.
  abbrev pub IsKept : LogEvent → World H → World H → Type 0
  IsKept stored before final =
      InStream (repository lib cfg options answers) stored before final
      ⊎ InWal (repository lib cfg options answers) stored before final

  -- The event of a request is stored, in the world that the service is left in: by an XADD, or by a
  -- write to the log.
  pub record IsStored (decoded : LogEvent) (raw : Text) (final : World H) : Type 0 where
    pub stored : LogEvent
    pub received_at : ℕ
    pub id : Text
    pub own_id : is_empty decoded.id ≡ false → id ≡ decoded.id
    pub same :
        IsSameEvent (record decoded { raw_event = raw; received_at = received_at; id = id }) stored
    pub before : World H
    pub kept : IsKept stored before final

  buffer_log-IsKept :
      (event : LogEvent) (st : Shared (World H))
      → (buffer_log (repository lib cfg options answers) event st).0 ≡ ok tt
      → (before : World H) × IsKept event before
          (buffer_log (repository lib cfg options answers) event st).1.world
  buffer_log-IsKept event st done =
      let r = repository lib cfg options answers in
      elim (buffer_log_stores r event st done) [
        | inl (up, added) ↦ (st.world, inl added)
        | inr (inl (down, written)) ↦ (st.world, inr written)
        | inr (inr (e, up, failed, lost, written)) ↦
            ((buffer_log_to_redis r event st.world).1, inr written)
      ]

  ingest-IsStored :
      (decoded : LogEvent) (raw : Text) (st st' : Shared (World H))
      → ingest (ingest_log lib cfg options answers) (record decoded { raw_event = raw }) st
        ≡ (ok tt, st')
      → IsStored decoded raw st'.world
  ingest-IsStored decoded raw st st' done =
      let uc = ingest_log lib cfg options answers in
      let event = record decoded { raw_event = raw } in
      let (stored, s, through, same) = ingest-IsSameEvent uc event st in
      let e = sym through ∙ done in
      let (before, kept) = buffer_log-IsKept stored s (ap (λ q. q.0) e) in
      record {
        stored = stored;
        received_at = (uc.now st).0;
        id = id_of uc event st;
        own_id = λ given. ground (arith, given);
        same = same;
        before = before;
        kept = subst (IsKept stored before) (ap (λ q. q.1.world) e) kept;
      }

  -- If a JSON request to the ingest service is replied to with 202, whatever the libraries and the
  -- operating system answer, then its key was valid, its body decoded to an event, and in the world
  -- in which the service is left this event has just been stored: added to the stream without an
  -- error, or written to the log without one, under its own id where it has one, and with its time,
  -- source, level and message as they came.
  pub serve-IsStored :
      (env : ApiKeys.Env) (req : Incoming) (can_flush : Bool) (st : State (Plant H D))
      (log : List ℕ)
      → has_prefix (codes "application/json") req.request.content_type ≡ true
      → (serve lib cfg options answers env req can_flush (st, log)).0 ≡ status 202
      → ((api_keys lib cfg options env).is_valid req.api_key st.world).0 ≡ ok true
        × (event : LogEvent) × (lib.codec.unmarshal req.request.body.bytes ≡ ok event)
        × IsStored event req.request.body.bytes
            (serve lib cfg options answers env req can_flush (st, log)).1.0.world.1.world
  serve-IsStored env req can_flush st log json accepted =
      let keys = api_keys lib cfg options env in
      let h = ingest_handler lib cfg options answers in
      let st1 = record st { world = (keys.is_valid req.api_key st.world).1 } in
      let st2 = (serve lib cfg options answers env req can_flush (st, log)).1.0 in
      let (a, logged) = ingest_server-IsAuthorized keys h req can_flush st log accepted in
      let (event, decoded, fits, ingested, counted) =
        accepted_json_is_ingested h req.request st1 json (ap (λ q. q.0) a.served) in
      let done = ingested ∙ ap (λ q. (ok tt, q.1.world)) a.served in
      (
        a.valid,
        event,
        decoded,
        ingest-IsStored event req.request.body.bytes st1.world.1 st2.world.1
            (ap (λ q. (q.0, q.1.1)) done),
      )
