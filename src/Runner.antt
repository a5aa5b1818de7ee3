-- ===== src/Runner.antt =====
-- deltasync.go: the job that copies the changed regions of a snapshot to the target disk.
-- A disk is a function from offsets to bytes. The two open files enter as `Files`: what the calls
-- of `ReadAt` and `WriteAt` return may depend on how many calls were made before.
pub mod Copy
pub mod Region
pub mod Retry
pub mod Transfer
pub mod Loading
pub mod Round
pub mod Pool
pub mod Flags
pub mod Command
use ahv_to_ove_operator.Base.{
  ℕ, zero, suc, ◌*◌, ◌+◌, ◌≡◌, Bool, true, false, ◌&&◌, ◌||◌, List, [], ◌∷◌, Option, none, some,
  Text, text_eq, leb, ltb, ◌==◌, not, if◌then◌else◌,
}
use ahv_to_ove_operator.Base.Int64.{add64, sub64, lt64, le64}
use ahv_to_ove_operator.Regions.{ChangedRegion, mib, zeroed}

abbrev pub Disk : Type 0
Disk = ℕ → ℕ

pub data IoError : Type 0 where
  eof unexpected_eof : IoError
  io_error : Text → IoError

-- `ReadAt(buf[:want], off)` gives the number of bytes read, which are those of `snapshot` from `off`
-- on. `WriteAt(buf[:n], off)` gives the number of bytes written. The first argument counts the calls.
pub record Files : Type 0 where
  pub snapshot : Disk
  pub read_at : ℕ → ℕ → ℕ → ℕ × Option IoError
  pub write_at : ℕ → ℕ → ℕ → ℕ × Option IoError
  pub fsync : ℕ → Option IoError

pub record World : Type 0 where
  pub target : Disk
  pub calls : ℕ

-- `n` bytes of a buffer written at `off`. The byte for the offset `i` is `bytes i`.
unfoldable pub overlay : Disk → ℕ → ℕ → Disk → Disk
overlay bytes off n out i = if leb off i && ltb i (off + n) then bytes i else out i

pub data SyncError : Type 0 where
  write_failed : IoError → SyncError
  read_failed : ℕ → IoError → SyncError
  short_read : ℕ → SyncError

-- The size of the two buffers.
abbrev pub chunk : ℕ
chunk = 4 * mib

abbrev pub is_eof : IoError → Bool
is_eof eof = true
is_eof unexpected_eof = true
is_eof (io_error _) = false

-- The number of bytes that the next round asks for.
unfoldable pub want : ℕ → ℕ → ℕ
want length done = if lt64 (sub64 length done) chunk then sub64 length done else chunk

-- The test behind the loop.
abbrev pub check_done : ℕ → ℕ → Option SyncError
check_done length done = if done == length then none else some (short_read done)

-- How a round goes on after the read: `none` if the loop goes on.
abbrev pub after_read : ChangedRegion → ℕ → Option IoError → Option (Option SyncError)
after_read r done none = none
after_read r done (some e) =
    if is_eof e && le64 r.len done
    then some (check_done r.len done)
    else some (some (read_failed (add64 r.offset done) e))

-- `done += n`, under `if n > 0`.
unfoldable pub advance : ℕ → ℕ → ℕ
advance done n = if ltb 0 n then add64 done n else done

-- The rest of a round, after the read of `n` bytes and the write.
unfoldable pub finish_round :
    ChangedRegion → ℕ → ℕ → Option IoError → Option IoError → ℕ × Option (Option SyncError)
finish_round r done n rerr (some e) = (done, some (some (write_failed e)))
finish_round r done n rerr none = let done' = advance done n in (done', after_read r done' rerr)

abbrev pub attempt_limit : ℕ
attempt_limit = 3

abbrev pub count_failed : Option (Option SyncError) → ℕ → ℕ
count_failed (some none) failed = failed
count_failed _ failed = suc failed

unfoldable pub zeros : Disk
zeros i = 0

module _ (files : Files) where
  -- One call of `WriteAt`.
  unfoldable pub write : Disk → ℕ → ℕ → World → Option IoError × World
  write bytes off n w =
      let (written, e) = files.write_at w.calls off n in
      (e, record { target = overlay bytes off written w.target; calls = suc w.calls })

  -- The `if n > 0` of `syncRegion`.
  abbrev pub write_some : Disk → ℕ → ℕ → World → Option IoError × World
  write_some bytes off n w = if ltb 0 n then write bytes off n w else (none, w)

  -- One round of the loop: the new `done`, the result if the round ends the loop, and the world.
  unfoldable pub copy_round : ChangedRegion → ℕ → World → (ℕ × Option (Option SyncError)) × World
  copy_round r done w =
      let off = add64 r.offset done in
      let (n, rerr) = files.read_at w.calls off (want r.len done) in
      let (werr, w') = write_some files.snapshot off n (record w { calls = suc w.calls }) in
      (finish_round r done n rerr werr, w')

  -- `none` in front means that the fuel ran out.
  unfoldable pub copy_loop : ℕ → ChangedRegion → ℕ → World → Option (Option SyncError) × World
  copy_loop zero r done w = (none, w)
  copy_loop (suc fuel) r done w = elim (lt64 done r.len) [
    | false ↦ (some (check_done r.len done), w)
    | true ↦
        let (step, w') = copy_round r done w in
        let (done', stop) = step in
        elim stop [ some result ↦ (some result, w') | none ↦ copy_loop fuel r done' w' ]
  ]

  unfoldable pub zero_loop : ℕ → ℕ → ℕ → ℕ → World → Option (Option SyncError) × World
  zero_loop zero offset length written w = (none, w)
  zero_loop (suc fuel) offset length written w = elim (lt64 written length) [
    | false ↦ (some none, w)
    | true ↦
        let (e, w') = write zeros (add64 offset written) (want length written) w in
        elim e [
          | some x ↦ (some (some (write_failed x)), w')
          | none ↦ zero_loop fuel offset length (add64 written (want length written)) w'
        ]
  ]

  -- A round moves at least one byte on, so a length's worth of rounds is enough.
  unfoldable pub write_zeros : ℕ → ℕ → World → Option (Option SyncError) × World
  write_zeros offset length w = zero_loop (suc length) offset length 0 w

  unfoldable pub sync_region : ChangedRegion → World → Option (Option SyncError) × World
  sync_region r w =
      if text_eq r.typ zeroed then write_zeros r.offset r.len w else copy_loop (suc r.len) r 0 w

  -- The loop of attempts of a region, with the error so far. The pauses between are left out.
  unfoldable pub attempts :
      ℕ → ChangedRegion → Option (Option SyncError) → World → Option (Option SyncError) × World
  attempts zero r result w = (result, w)
  attempts (suc more) r _ w =
      let (result, w') = sync_region r w in
      elim result [
        | none ↦ (none, w')
        | some none ↦ (some none, w')
        | some (some e) ↦ attempts more r (some (some e)) w'
      ]

  -- The regions in order, with the count of those that failed.
  unfoldable pub sync_all : List ChangedRegion → ℕ → World → ℕ × World
  sync_all [] failed w = (failed, w)
  sync_all (r ∷ rs) failed w =
      let (result, w') = attempts attempt_limit r (some none) w in
      sync_all rs (count_failed result failed) w'

  -- The exit status from the transfer on.
  unfoldable pub run_delta_sync : List ChangedRegion → World → ℕ × World
  run_delta_sync regions w =
      let (failed, w') = sync_all regions 0 w in
      if ltb 0 failed
      then (1, w')
      else elim (files.fsync w'.calls) [ some e ↦ (1, w') | none ↦ (0, w') ]
