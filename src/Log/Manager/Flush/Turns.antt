-- ===== src/Log/Manager/Flush/Turns.antt =====
-- One turn of `flush_to` as leader, and the turns of a call that returns.
use database_internals.Prelude.{
  ℕ, ◌≡◌, ◌≤◌, refl, List, [], ◌∷◌, ◌++◌, arith, ltb, Bool, true, false, ap, ◌∙◌, append_assoc,
  append-nil, take, drop, take-append-drop, Bool-cases, inl, inr,
}
use database_internals.Memory.{read_bytes}
use database_internals.Log.Manager.{LogManager, LogFile}
use database_internals.Log.Manager.Append.{contents}
use database_internals.Log.Manager.Flush.{
  WriteResult, wrote, interrupted, failed, Io, Written, done, fails, stuck, write_loop, sync,
  append_durable, copy_to_fill_buffer, Flushed, returned, thrown, pending, publish, lead,
  then_again, flush_to,
}

-- However the writes are cut up and interrupted, a loop that ends has appended exactly the bytes.
write_loop-done :
    (rs : List WriteResult) (file : LogFile) (bytes : List ℕ) (out : LogFile)
    → write_loop rs file bytes ≡ done out
    → (out.written ≡ file.written ++ bytes) × (out.synced ≡ file.synced) × (out.named ≡ file.named)
unfolding write_loop
write_loop-done rs file [] out h = ground (arith, append-nil file.written)
write_loop-done [] file (b ∷ bs) out h = cc
write_loop-done (interrupted ∷ rs) file (b ∷ bs) out h = write_loop-done rs file (b ∷ bs) out h
write_loop-done (failed ∷ rs) file (b ∷ bs) out h = cc
write_loop-done (wrote n ∷ rs) file (b ∷ bs) out h =
    let (w, y, z) =
      write_loop-done rs (record file { written = file.written ++ take n (b ∷ bs) })
        (drop n (b ∷ bs)) out h in
    (
      w
          ∙ append_assoc file.written (take n (b ∷ bs)) (drop n (b ∷ bs))
          ∙ ap (◌++◌ file.written) (take-append-drop n (b ∷ bs)),
      y,
      z,
    )

-- `append_durable` that does not throw has appended the whole batch to the file and synced it, and
-- its name too if the file is new.
pub record IsDurable (created : Bool) (file out : LogFile) (bytes : List ℕ) : Type 0 where
  appended_whole : out.written ≡ file.written ++ bytes
  all_synced : out.synced ≡ out.written
  pub name_kept : file.named ≡ true → out.named ≡ true
  pub name_synced : created ≡ true → out.named ≡ true

append_durable-IsDurable :
    (io : Io) (path : List ℕ) (file : LogFile) (bytes : List ℕ) (out : LogFile)
    → append_durable io path file bytes ≡ done out
    → IsDurable io.created file out bytes
unfolding append_durable sync
append_durable-IsDurable io path file bytes out h = elim (Bool-cases (io.opened path)) [
  | inr n ↦ absurd (ground arith)
  | inl y ↦ go (write_loop io.writes file bytes) refl (rw y at h)
]
  where
    go :
        (w : Written)
        → write_loop io.writes file bytes ≡ w
        → sync io w ≡ done out
        → IsDurable io.created file out bytes
    go (fails f) e k = absurd (ground arith)
    go (stuck f) e k = absurd (ground arith)
    go (done f) e k =
        let (w, y, z) = write_loop-done io.writes file bytes f e in
        record {
          appended_whole = ground arith;
          all_synced = ground arith;
          name_kept = λ n. ground arith;
          name_synced = λ c. ground arith;
        }

-- What the log holds: the file and, behind it, the buffer.
abbrev pub log : LogManager → List ℕ
log s = s.file.written ++ contents s

publish-returned :
    (s s' : LogManager) (w : Written)
    → publish s w ≡ returned s'
    → (w ≡ done s'.file)
      × (s' ≡ record s { file = s'.file; flushed_lsn = s.current_lsn; flushing = false })
unfolding publish
publish-returned s s' (done file) h = ground arith
publish-returned s s' (fails file) h = cc
publish-returned s s' (stuck file) h = cc

-- A turn as leader moves the whole buffer into the file.
pub record IsLed (io : Io) (s s' : LogManager) : Type 0 where
  pub whole : log s' ≡ log s
  pub emptied : s'.fill_offset ≡ 0
  pub reached : s'.flushed_lsn ≡ s.current_lsn
  pub same_lsn : s'.current_lsn ≡ s.current_lsn
  pub safe : s'.file.synced ≡ s'.file.written
  pub name_kept : s.file.named ≡ true → s'.file.named ≡ true
  pub name_synced : io.created ≡ true → s'.file.named ≡ true
  pub finished : s'.flushing ≡ false

lead-IsLed : (io : Io) (s s' : LogManager) → lead io s ≡ returned s' → IsLed io s s'
unfolding lead read_bytes
lead-IsLed io s s' h =
    let (e, f) =
      publish-returned (copy_to_fill_buffer (record s { flushing = true })).1 s'
        (append_durable io s.absolute_log_file_path s.file (contents s)) h in
    let g = append_durable-IsDurable io s.absolute_log_file_path s.file (contents s) s'.file e in
    record {
      whole = ground (arith, append-nil s'.file.written, g.appended_whole);
      safe = g.all_synced;
      name_kept = g.name_kept;
      name_synced = g.name_synced;
      emptied = ground arith;
      reached = ground arith;
      same_lsn = ground arith;
      finished = ground arith;
    }

then_again-returned :
    (r : Flushed) (again : LogManager → Flushed) (s' : LogManager)
    → then_again r again ≡ returned s'
    → (t : LogManager) × (r ≡ returned t) × (again t ≡ returned s')
unfolding then_again
then_again-returned (returned t) again s' h = (t, refl, h)
then_again-returned (thrown t) again s' h = cc
then_again-returned (pending t) again s' h = cc

-- A `flush_to` that returns either was there already, or has made a turn as leader first.
pub data Turns (ios : List Io) (target : ℕ) (s s' : LogManager) : Type 0 where
  idle : target ≤ s.flushed_lsn → s' ≡ s → Turns ios target s s'
  led :
      (io : Io) (rest : List Io) (t : LogManager)
      → ios ≡ io ∷ rest
      → IsLed io s t
      → flush_to rest target t ≡ returned s'
      → Turns ios target s s'

pub turns :
    (ios : List Io) (target : ℕ) (s s' : LogManager)
    → flush_to ios target s ≡ returned s'
    → Turns ios target s s'
unfolding flush_to
turns [] target s s' h = idle (ground arith) (ground arith)
turns (io ∷ ios) target s s' h = elim (Bool-cases (ltb s.flushed_lsn target)) [
  | inr reached ↦ idle (ground arith) (ground arith)
  | inl short ↦ elim (Bool-cases s.flushing) [
    | inl busy ↦ absurd (ground arith)
    | inr free ↦
        let (t, e, k) = then_again-returned (lead io s) (flush_to ios target) s' (ground arith) in
        led io ios t refl (lead-IsLed io s t e) k
  ]
]
