-- ===== src/Wal/Journal/Invariant.antt =====
-- What the methods keep of a log, with the events that it holds
-- (internal/adapter/repository/wal/wal_repository.go).
use mathlib.Core.Path.{subst}
use watch_tower.Common.{
  ℕ, suc, ◌≤◌, ◌<◌, ◌≡◌, refl, sym, ◌∙◌, arith, none, some, List, [], ◌∷◌, ◌++◌, false,
  if◌then◌else◌, length, Text, ok, is_ok, Error, Op, Option, Result-cases, inl, inr, append-nil,
}
use watch_tower.Scanner.{max_token}
use watch_tower.Domain.{LogEvent}
use watch_tower.Domain.Codec.{Codec, CodecLaws}
use watch_tower.Wal.Segments.{Wal, OpenEnv}
use watch_tower.Wal.Methods.{new_wal, WriteEnv, write, ReplayEnv, replay, TruncateEnv, truncate}
use watch_tower.Wal.Removal.{IsDistinct}
use watch_tower.Wal.Clock.{IsCurrent}
use watch_tower.Wal.Dated.{
  IsDated, IsDated-IsFresh, new_wal-IsDated, IsDated-later, IsTimed, IsTimed-IsAdvancing,
  write-IsDated, truncate-IsDated,
}
use watch_tower.Wal.Distinct.{new_wal-IsDistinct, write-IsDistinct, truncate-IsDistinct}
use watch_tower.Wal.Opened.{new_wal-Holds}
use watch_tower.Wal.Emptied.{truncate_empties}
use watch_tower.Wal.Log.{log_lines, IsReady}
use watch_tower.Wal.Log.Accept.{write-IsLogged}
use watch_tower.Wal.Log.Replay.{Fits, Decodes}
use watch_tower.Wal.Log.RoundTrip.{Holds, write-Holds}
use watch_tower.Wal.Journal.{Journal}

module _ (codec : Codec) (laws : CodecLaws codec) where
  -- The log holds the accepted events, its files are its own, and each is from before its time.
  pub record IsKept (j : Journal) : Type 0 where
    pub holds : Holds codec laws j.wal j.events
    pub distinct : IsDistinct j.wal.dir
    pub dated : IsDated j.clock j.wal.dir

  -- A log whose view is as before holds the same events.
  Holds-view :
      (w w' : Wal) (es : List LogEvent)
      → Holds codec laws w es
      → IsReady w'
      → log_lines w'.dir ≡ log_lines w.dir
      → Holds codec laws w' es
  Holds-view w w' es h ready view = record {
    ready = ready;
    fits = subst Fits (sym view) h.fits;
    decodes = subst (λ ls. Decodes codec ls es) (sym view) h.decodes;
  }

  Holds-empty : (w : Wal) → log_lines w.dir ≡ [] → IsReady w → Holds codec laws w []
  Holds-empty w view ready = record {
    ready = ready;
    fits = subst Fits (sym view) (tt, tt);
    decodes = subst (λ ls. Decodes codec ls []) (sym view) tt;
  }

  -- A handle that is given up.
  Holds-released :
      (w : Wal) (es : List LogEvent)
      → Holds codec laws w es
      → Holds codec laws (record w { current = none; is_closed = false }) es
  Holds-released w es h =
      Holds-view w (record w { current = none; is_closed = false }) es h
        (record { open_handle = refl; newest = tt; no_torn = h.ready.no_torn }) refl

  pub replay-released :
      {H : Type 0} (ctx_err : Op H Unit) (handler : LogEvent → Op H Unit) (env : ReplayEnv)
      (w : Wal) (h : H)
      → (replay codec ctx_err handler env (w, h)).1.0
        ≡ record w { current = none; is_closed = false }
  unfolding replay
  replay-released ctx_err handler env w h = ground arith

  pub truncate-released :
      (env : TruncateEnv) (w : Wal) (e : Error)
      → env.read_dir ≡ some e
      → (truncate env w).1 ≡ record w { current = none; is_closed = false }
  unfolding truncate
  truncate-released env w e failed = ground arith

  -- Accepted or not, a write leaves a log of the accepted events.
  written-Holds :
      (env : WriteEnv) (event : LogEvent) (j : Journal)
      → IsKept j
      → IsTimed j.clock env
      → env.short ≡ none
      → ((body : Text) → codec.marshal event ≡ ok body → length body < max_token)
      → Holds codec laws (write codec env event j.wal).1 (
          if is_ok (write codec env event j.wal).0
          then j.events ++ codec.wire event ∷ []
          else j.events)
  written-Holds env event j kept timed short fits =
      let advancing = IsTimed-IsAdvancing j.clock env j.wal.dir kept.dated timed in
      elim (Result-cases (write codec env event j.wal).0) [
        | inl (tt, accepted) ↦
            rw accepted
              (write-Holds codec laws env event j.wal j.events kept.holds advancing accepted fits)
        | inr (e, refused) ↦
            let l = write-IsLogged codec laws env event j.wal kept.holds.ready advancing short in
            let view = (rw refused at l.view) ∙ append-nil (log_lines j.wal.dir) in
            rw refused
              (Holds-view j.wal (write codec env event j.wal).1 j.events kept.holds l.ready view)
      ]

  pub released-IsKept :
      (j : Journal) (w : Wal)
      → IsKept j
      → w ≡ record j.wal { current = none; is_closed = false }
      → IsKept (record j { wal = w })
  released-IsKept j w kept e =
      subst (λ w'. IsKept (record j { wal = w' })) (sym e)
        (record {
          holds = Holds-released j.wal j.events kept.holds;
          distinct = kept.distinct;
          dated = kept.dated;
        })

  pub later-IsKept :
      (j : Journal) (t : ℕ) → j.clock ≤ t → IsKept j → IsKept (record j { clock = t })
  later-IsKept j t le kept = record {
    holds = kept.holds;
    distinct = kept.distinct;
    dated = IsDated-later j.clock t j.wal.dir le kept.dated;
  }

  pub written-IsKept :
      (env : WriteEnv) (event : LogEvent) (j : Journal)
      → IsKept j
      → IsTimed j.clock env
      → env.short ≡ none
      → ((body : Text) → codec.marshal event ≡ ok body → length body < max_token)
      → IsKept (record {
        clock = suc env.after.now;
        wal = (write codec env event j.wal).1;
        events =
            if is_ok (write codec env event j.wal).0
            then j.events ++ codec.wire event ∷ []
            else j.events;
      })
  written-IsKept env event j kept timed short fits = record {
    holds = written-Holds env event j kept timed short fits;
    distinct = write-IsDistinct codec env event j.wal kept.distinct;
    dated = write-IsDated j.clock codec env event j.wal timed kept.dated;
  }

  pub truncated-IsKept :
      (env : TruncateEnv) (j : Journal)
      → IsKept j
      → env.read_dir ≡ none
      → ((n : Text) → env.keeps n ≡ false)
      → j.clock ≤ env.reopen.rotation.now
      → IsCurrent env.reopen.rotation.now
      → IsKept (record {
        clock = suc env.reopen.rotation.now;
        wal = (truncate env j.wal).1;
        events = [];
      })
  truncated-IsKept env j kept listed removed le current =
      let fresh = IsDated-IsFresh j.clock env.reopen.rotation.now j.wal.dir kept.dated le current in
      let (view, ready) = truncate_empties env j.wal listed removed kept.distinct fresh.absent in
      record {
        holds = Holds-empty (truncate env j.wal).1 view ready;
        distinct = truncate-IsDistinct env j.wal kept.distinct;
        dated = truncate-IsDated j.clock env j.wal le current kept.dated;
      }

  pub restarted-IsKept :
      (j : Journal) (mkdir : Option Error) (env : OpenEnv) (max_segment max_total : ℕ) (w : Wal)
      → IsKept j
      → j.clock ≤ env.rotation.now
      → IsCurrent env.rotation.now
      → (new_wal mkdir env max_segment max_total j.wal.dir tt).0 ≡ ok w
      → IsKept (record j { clock = suc env.rotation.now; wal = w })
  restarted-IsKept j mkdir env max_segment max_total w kept le current opened =
      let fresh = IsDated-IsFresh j.clock env.rotation.now j.wal.dir kept.dated le current in
      record {
        holds =
            new_wal-Holds codec laws j.wal j.events mkdir env max_segment max_total w kept.holds
              kept.distinct fresh opened;
        distinct =
            new_wal-IsDistinct mkdir env max_segment max_total j.wal.dir w opened kept.distinct;
        dated =
            new_wal-IsDated j.clock mkdir env max_segment max_total j.wal.dir w le current opened
              kept.dated;
      }
