-- ===== src/Log/Manager/Sequence.antt =====
-- A run of `append`s against the abstract log: a list of records with consecutive LSNs. And the
-- size of a checkpoint's closing record.
use database_internals.Prelude.{
  ℕ, ◌+◌, ◌*◌, ◌≡◌, ◌≤◌, ◌<◌, ◌≢◌, refl, List, [], ◌∷◌, ◌++◌, arith, length, length-append, ap, ◌∙◌,
  sym, append_assoc, append-nil, flat_map, replicate, length-replicate,
}
use database_internals.Log.Records.{LogRecordHeader, blank, checkpt_end, att_bytes, dpt_bytes}
use database_internals.Log.Manager.{
  LogManager, append, append_buffer_size, invalid_lsn, log_checkpoint_end, image,
}
use database_internals.Log.Manager.Append.{
  contents, appended, append-fits, contents-appended, record_bytes,
}

-- What a caller passes to `append`.
pub record Entry : Type 0 where
  pub header : LogRecordHeader
  pub before : List ℕ
  pub after : List ℕ

pub append_all : LogManager → List Entry → List ℕ × LogManager
append_all s [] = ([], s)
append_all s (e ∷ es) =
    let (lsn, t) = append s e.header e.before e.after in
    let (lsns, u) = append_all t es in (lsn ∷ lsns, u)

-- The specification: every record complete, numbered from the given LSN on.
pub numbered : ℕ → List Entry → List ℕ
numbered lsn [] = []
numbered lsn (e ∷ es) = lsn ∷ numbered (lsn + 1) es

entry_bytes : ℕ → Entry → List ℕ
entry_bytes lsn e =
    record_bytes
      (record e.header {
        before_len = length e.before;
        after_len = length e.after;
        size = 64 + length e.before + length e.after;
        lsn = lsn;
        reserved = 0;
      })
      e.before e.after

pub written_out : ℕ → List Entry → List ℕ
unfolding entry_bytes
written_out lsn [] = []
written_out lsn (e ∷ es) = entry_bytes lsn e ++ written_out (lsn + 1) es

abbrev pub total_size : List Entry → ℕ
total_size [] = 0
total_size (e ∷ es) = 64 + length e.before + length e.after + total_size es

-- Appends that fit give out consecutive LSNs, and leave in the buffer the concatenation of the
-- records in that order, behind what was there.
pub append_all-written_out :
    (es : List Entry) (s : LogManager)
    → s.fill_offset + total_size es ≤ append_buffer_size
    → s.current_lsn + length es ≤ invalid_lsn
    → let (lsns, s') = append_all s es in
      (lsns ≡ numbered s.current_lsn es)
      × (contents s' ≡ contents s ++ written_out s.current_lsn es)
      × (s'.current_lsn ≡ s.current_lsn + length es)
unfolding append_all numbered written_out
append_all-written_out [] s fits low = (refl, sym (append-nil (contents s)), omega arith)
append_all-written_out (e ∷ es) s fits low =
    rw (append-fits s e.header e.before e.after (omega arith) (omega arith)) (
      let (a, b, c) =
        append_all-written_out es (appended s e.header e.before e.after) (omega arith)
          (omega arith) in
      (
        ap (◌∷◌ s.current_lsn) a,
        b
            ∙ ap (λ t. t ++ written_out (s.current_lsn + 1) es)
                (contents-appended s e.header e.before e.after)
            ∙ append_assoc (contents s) (entry_bytes s.current_lsn e) _,
        c ∙ omega arith,
      ))

length-flat_map :
    {A : Type 0} (f : A → List ℕ) (k : ℕ) (xs : List A)
    → ((x : A) → length (f x) ≡ k)
    → length (flat_map f xs) ≡ k * length xs
length-flat_map f k [] h = omega arith
length-flat_map f k (x ∷ xs) h =
    grind (arith, length-append (f x) (flat_map f xs), length-flat_map f k xs h, h x)

length-image :
    {A : Type 0} (f : A → List ℕ) (k : ℕ) (xs : List A)
    → ((x : A) → length (f x) ≡ k)
    → length (image k f xs) ≡ k * length xs + k * length xs
unfolding image
length-image f k xs h = omega (
  arith,
  length-append (replicate (k * length xs) 0) (flat_map f xs),
  length-replicate {A = ℕ} (k * length xs) 0,
  length-flat_map f k xs h,
)

att_image : List (ℕ × ℕ) → List ℕ
att_image = image 24 (λ e. att_bytes (record { tx_id = e.0; last_lsn = e.1; status = 0 }))

dpt_image : List (ℕ × ℕ) → List ℕ
dpt_image = image 16 (λ e. dpt_bytes (record { page_id = e.0; reserved = 0; rec_lsn = e.1 }))

length-att_image : (att : List (ℕ × ℕ)) → length (att_image att) ≡ 48 * length att
unfolding att_image att_bytes
length-att_image att = omega (
  arith,
  length-image (λ (e : ℕ × ℕ). att_bytes (record { tx_id = e.0; last_lsn = e.1; status = 0 })) 24
      att (λ e. refl),
)

length-dpt_image : (dpt : List (ℕ × ℕ)) → length (dpt_image dpt) ≡ 32 * length dpt
unfolding dpt_image dpt_bytes
length-dpt_image dpt = omega (
  arith,
  length-image (λ (e : ℕ × ℕ). dpt_bytes (record { page_id = e.0; reserved = 0; rec_lsn = e.1 })) 16
      dpt (λ e. refl),
)

-- A closing checkpoint record takes twice the bytes of its entries, 48 for a transaction and 32 for
-- a page, and so never the size that the layout above `log_checkpoint_end` gives.
pub log_checkpoint_end-size :
    (s : LogManager) (att dpt : List (ℕ × ℕ))
    → s.fill_offset + (64 + 48 * length att + 32 * length dpt) ≤ append_buffer_size
    → s.current_lsn < invalid_lsn
    → let (lsn, s') = log_checkpoint_end s att dpt in
      (s'.fill_offset ≡ s.fill_offset + 64 + 48 * length att + 32 * length dpt)
      × (s'.fill_offset ≢ s.fill_offset + 64 + 8 + 24 * length att + 16 * length dpt)
unfolding log_checkpoint_end att_image dpt_image
log_checkpoint_end-size s att dpt fits low =
    rw
      (append-fits s (record blank { log_type = checkpt_end }) (att_image att) (dpt_image dpt)
        (omega (arith, length-att_image att, length-dpt_image dpt)) low)
      (
        omega (arith, length-att_image att, length-dpt_image dpt),
        omega (arith, length-att_image att, length-dpt_image dpt),
      )
