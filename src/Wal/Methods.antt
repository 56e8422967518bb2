-- ===== src/Wal/Methods.antt =====
-- The exported methods of the WAL (internal/adapter/repository/wal/wal_repository.go). Each holds
-- the mutex from its first line to its last, so each is one atomic step.
use watch_tower.Common.{
  ℕ, ◌+◌, Bool, true, false, Option, none, some, List, [], ◌∷◌, ◌++◌, ltb, leb, if◌then◌else◌, Text,
  codes, length, take, Op, ok, err, wrapped, failure, Error, Done, from_fault, ◌>>◌,
}
use watch_tower.Domain.{LogEvent}
use watch_tower.Domain.Codec.{Codec}
use watch_tower.Scanner.{split_lines, scan}
use watch_tower.Wal.Files.{Dir, content?, append_file, remove_file, sorted_segments, total_size}
use watch_tower.Wal.Segments.{Wal, RotateEnv, OpenEnv, rotate, open_latest_segment}

-- NewWALRepository
unfoldable pub new_wal : Option Error → OpenEnv → ℕ → ℕ → Dir → Op Unit Wal
unfolding open_latest_segment
new_wal mkdir env max_segment max_total d u = elim mkdir [
  | some e ↦ (err (wrapped (codes "failed to create WAL directory: ") e), u)
  | none ↦
      let start : Wal = record {
        max_segment_size = max_segment;
        max_total_size = max_total;
        current = none;
        is_closed = false;
        current_size = 0;
        dir = d;
      } in
      let (r, w) = open_latest_segment env start in elim r [ ok _ ↦ (ok w, u) | err e ↦ (err e, u) ]
]

-- `short` is a failing write: the bytes that it wrote, and its error.
pub record WriteEnv : Type 0 where
  pub before : RotateEnv
  pub size : Option Error
  pub short : Option (ℕ × Error)
  pub after : RotateEnv

-- `if w.currentSegment == nil`
unfoldable pub ensure_segment : WriteEnv → Op Wal Unit
unfolding rotate
ensure_segment env w = elim w.current [ none ↦ rotate env.before w | some _ ↦ (ok tt, w) ]

-- The check of the disk budget.
unfoldable pub check_budget : WriteEnv → Text → Op Wal Unit
check_budget env line w = elim env.size [
  | some e ↦ (err (wrapped (codes "could not verify WAL disk space: ") e), w)
  | none ↦
      if ltb w.max_total_size (total_size w.dir + length line)
      then (err (failure (codes "WAL max total size exceeded")), w)
      else (ok tt, w)
]

abbrev pub invalid_handle : Error
invalid_handle =
    wrapped (codes "failed to write to WAL segment: ") (failure (codes "invalid argument"))

-- w.currentSegment.Write(data), and the count of the bytes.
unfoldable pub write_segment : WriteEnv → Text → Op Wal Unit
write_segment env line w = elim w.current [
  | none ↦ (err invalid_handle, w)
  | some name ↦ if w.is_closed then (err invalid_handle, w) else elim env.short [
    | some (n, e) ↦ (
      err (wrapped (codes "failed to write to WAL segment: ") e),
      record w { dir = append_file name (take n line) w.dir },
    )
    | none ↦ (
      ok tt,
      record w { dir = append_file name line w.dir; current_size = w.current_size + length line },
    )
  ]
]

-- A rotation that fails after the write is only logged.
unfoldable pub rotate_if_full : WriteEnv → Op Wal Unit
unfolding rotate
rotate_if_full env w =
    if leb w.max_segment_size w.current_size then (ok tt, (rotate env.after w).1) else (ok tt, w)

unfoldable pub write_line : WriteEnv → Text → Op Wal Unit
write_line env line = do
  ensure_segment env
  check_budget env line
  write_segment env line
  rotate_if_full env

unfoldable pub write : Codec → WriteEnv → LogEvent → Op Wal Unit
write codec env event w = elim (codec.marshal event) [
  | err e ↦ (err (wrapped (codes "failed to marshal log event for WAL: ") e), w)
  | ok body ↦ write_line env (body ++ 10 ∷ []) w
]

-- The answers to os.ReadDir, and for each segment to os.Open and to the reads: a read that fails
-- does so behind a number of bytes.
pub record ReplayEnv : Type 0 where
  pub read_dir : Option Error
  pub open_file : Text → Option Error
  pub read : Text → Option (ℕ × Error)

-- What a scanner over a segment yields.
unfoldable pub segment_tokens : ReplayEnv → Text → Text → List Text × Done
unfolding split_lines scan
segment_tokens env name content = elim (env.read name) [
  | none ↦ scan (split_lines content) (ok tt)
  | some (n, e) ↦ scan (split_lines (take n content)) (err e)
]

-- The handler and ctx.Err() act on a state `H` of the caller.
module _ {H : Type 0} (codec : Codec) (ctx_err : Op H Unit) (handler : LogEvent → Op H Unit) where
  -- The body of the inner loop, for the lines of one segment.
  unfoldable pub replay_lines : List Text → Op H Unit
  replay_lines [] h = (ok tt, h)
  replay_lines (l ∷ ls) h =
      let (c, h1) = ctx_err h in
      elim c [
        | err e ↦ (err e, h1)
        | ok _ ↦ elim (codec.unmarshal l) [
          | err _ ↦ replay_lines ls h1
          | ok event ↦
              let (r, h2) = handler event h1 in
              elim r [
                | err e ↦ (err (wrapped (codes "replay handler failed: ") e), h2)
                | ok _ ↦ replay_lines ls h2
              ]
        ]
      ]

  -- One segment: the lines, then scanner.Err().
  unfoldable pub replay_content : ReplayEnv → Text → Text → Op H Unit
  replay_content env name content h =
      let (tokens, e) = segment_tokens env name content in
      let (r, h1) = replay_lines tokens h in
      elim r [
        | err x ↦ (err x, h1)
        | ok _ ↦ elim e [
          | err x ↦ (err (wrapped (codes "error scanning segment: ") x), h1)
          | ok _ ↦ (ok tt, h1)
        ]
      ]

  unfoldable pub replay_segment : ReplayEnv → Text → Dir → Op H Unit
  unfolding content?
  replay_segment env name d h = elim (env.open_file name) [
    | some e ↦ (err (wrapped (codes "failed to open segment for replay: ") e), h)
    | none ↦ elim (content? name d) [
      | none ↦ (err (failure (codes "no such file or directory")), h)
      | some content ↦ replay_content env name content h
    ]
  ]

  unfoldable pub replay_segments : ReplayEnv → List Text → Dir → Op H Unit
  replay_segments env [] d h = (ok tt, h)
  replay_segments env (n ∷ ns) d h =
      let (r, h1) = replay_segment env n d h in
      elim r [ err e ↦ (err e, h1) | ok _ ↦ replay_segments env ns d h1 ]

  unfoldable pub replay : ReplayEnv → Op (Wal × H) Unit
  replay env (w, h) = elim env.read_dir [
    | some e ↦ (
      err (wrapped (codes "failed to read WAL directory: ") e),
      (record w { current = none; is_closed = false }, h),
    )
    | none ↦
        let (r, h1) = replay_segments env (sorted_segments w.dir) w.dir h in
        (r, (record w { current = none; is_closed = false }, h1))
  ]

-- `keeps` says which removals fail, which is only logged.
pub record TruncateEnv : Type 0 where
  pub read_dir : Option Error
  pub keeps : Text → Bool
  pub reopen : OpenEnv

unfoldable pub remove_segments : (Text → Bool) → List Text → Dir → Dir
unfolding remove_file
remove_segments keeps [] d = d
remove_segments keeps (n ∷ ns) d = remove_segments keeps ns (if keeps n then d else remove_file n d)

unfoldable pub truncate : TruncateEnv → Op Wal Unit
truncate env w = elim env.read_dir [
  | some e ↦ (
    err (wrapped (codes "failed to read WAL directory: ") e),
    record w { current = none; is_closed = false },
  )
  | none ↦ open_latest_segment env.reopen (record w {
    current = none;
    is_closed = false;
    dir = remove_segments env.keeps (sorted_segments w.dir) w.dir;
  })
]

-- The handle stays in place, closed.
unfoldable pub close : Option Error → Op Wal Unit
close fault w = elim w.current [
  | none ↦ (ok tt, w)
  | some _ ↦ (from_fault fault, record w { is_closed = true })
]
