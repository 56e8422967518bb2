-- ===== src/Service/Consumer/Drained.antt =====
-- The worker empties the backlog of its group while it is served (cmd/consumer/main.go,
-- internal/usecase/process_logs.go and internal/adapter/repository/redis/log_repository.go).
use watch_tower.Common.{
  ℕ, ◌*◌, ◌≤◌, ◌≡◌, refl, ap, ◌∙◌, List, [], ◌∷◌, ◌++◌, map, arith, length, Text,
}
use watch_tower.Domain.Codec.{CodecLaws}
use watch_tower.Config.{Config}
use watch_tower.Redis.Buffer.{Shared}
use watch_tower.Redis.Batch.RoundTrip.{Published, received}
use watch_tower.Consumer.{default_batch_size}
use watch_tower.Consumer.Loop.{work}
use watch_tower.Consumer.Loop.Drained.{ticks, work-is_at}
use watch_tower.Service.Consumer.{Libraries, process_logs}
use watch_tower.Service.Consumer.Pipeline.{message_ids-received, length-received}
use watch_tower.Service.Consumer.Served.{Served, group_of}

module _ {S : Type 0} (lib : Libraries S) (laws : CodecLaws lib.codec) (cfg : Config) (name : Text)
    (g : Served lib cfg name) where
  none_left : (ps : List (Published lib.codec)) → map received ps ≡ [] → ps ≡ []
  none_left [] h = refl
  none_left (p ∷ ps) h = absurd (ground (arith, ap length h))

  -- If the group is served from now on, and the encoder meets its laws, then k ticks of the worker,
  -- with at most 1000 k messages in the backlog of the group, leave no message undelivered, and
  -- exactly the messages of the backlog are then acknowledged, once each and in order, behind those
  -- that were before: whatever the database answers to each statement, and with any count of retries.
  -- Served means that Redis answers and the context does not end, that nothing is added to the stream
  -- and nobody else reads for the group meanwhile, and that its messages are those of the producer.
  pub work-drains :
      (k : ℕ) (st : Shared S)
      → g.is_up st.world
      → length (g.backlog st.world) ≤ default_batch_size * k
      → (g.backlog (work (process_logs lib cfg name) (ticks k) st).1.world ≡ [])
        × (g.acked (work (process_logs lib cfg name) (ticks k) st).1.world
            ≡ g.acked st.world ++ map (λ p. p.message_id) (g.backlog st.world))
  work-drains k st up few =
      let ps = g.backlog st.world in
      let at_most : length (map received ps) ≤ default_batch_size * k =
        rw (length-received lib ps) few in
      let (_, left, done) =
        work-is_at (process_logs lib cfg name) (group_of lib laws cfg name g) k (map received ps)
          (g.acked st.world) st at_most (up, refl, refl) in
      (none_left _ left, done ∙ ap (λ ids. g.acked st.world ++ ids) (message_ids-received lib ps))
