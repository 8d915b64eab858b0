-- ===== src/Storage/DiskScheduler/Order.antt =====
-- What the threads of the disk scheduler do together: the order in which requests are served, and
-- that the worker returns.
use database_internals.Prelude.{
  List, [], ◌∷◌, ◌++◌, map, append_assoc, append-nil, Option, none, some, Outcome, ok, ◌>>=◌, ◌≡◌,
  arith, refl, ap, sym, ◌∙◌, ◌⊎◌, inl, inr, true, false, >>=-eq-ok, >>=-assoc, >>=-ext,
}
use database_internals.Memory.{Memory}
use database_internals.Storage.DiskManager.{System}
use database_internals.Storage.DiskScheduler.{
  Channel, put, get, DiskRequest, Reply, Machine, visit, start_worker_thread, schedule, close,
  World, Step, puts, serves, returns,
}

get-front {ℓ} :
    {A : Type ℓ} (q : Channel A) (a : A) (q' : Channel A) → get q ≡ ok (a, q') → q ≡ a ∷ q'
get-front [] a q' h = cc
get-front (x ∷ q) a q' h = cc

map-snoc {ℓ} :
    {A : Type ℓ} (rs : List A) (d : A) (q : List (Option A))
    → map some (rs ++ d ∷ []) ++ q ≡ map some rs ++ some d ∷ q
map-snoc [] d q = refl
map-snoc (r ∷ rs) d q = ap (some r ∷◌) (map-snoc rs d q)

behind {ℓ} :
    {A : Type ℓ} (w es p q : List A) (x : A) → w ++ es ≡ p ++ q → w ++ (es ++ x ∷ []) ≡ p ++ put q x
behind w es p q x e =
    sym (append_assoc w es (x ∷ [])) ∙ ap (◌++ x ∷ []) e ∙ append_assoc p q (x ∷ [])

append-nil-right {ℓ} : {A : Type ℓ} (w es : List A) {r : List A} → w ++ es ≡ r → w ++ (es ++ []) ≡ r
append-nil-right w es e = ap (w ++◌) (append-nil es) ∙ e

module _ (sys : System) (wreck : DiskRequest → Machine → Machine) (stack : Memory) where
  -- The requests one after the other, on one thread.
  unfoldable pub serial :
      List DiskRequest → Machine → Outcome (List (DiskRequest × Reply) × Machine)
  serial [] m = ok ([], m)
  serial (r ∷ rs) m = do
    first ← visit sys wreck stack r m
    rest ← serial rs first.1
    ok ((r, first.0) ∷ rest.0, rest.1)

  abbrev pub label {ℓ} : {A : Type ℓ} → Option A → List A
  label none = []
  label (some a) = a ∷ []

  -- Any interleaving of the clients' puts, listed in their order, and the worker.
  pub data Run (w : World sys wreck stack)
      : List (Option DiskRequest) → World sys wreck stack → Type 0 where
    here : Run w [] w
    more :
        {es : List (Option DiskRequest)} {v u : World sys wreck stack}
        (e : Option (Option DiskRequest))
        → Run w es v
        → Step sys wreck stack v e u
        → Run w (es ++ label e) u

  serial-snoc :
      (rs : List DiskRequest) (r : DiskRequest) (m m' m'' : Machine) (a : Reply)
      (given : List (DiskRequest × Reply))
      → serial rs m ≡ ok (given, m')
      → visit sys wreck stack r m' ≡ ok (a, m'')
      → serial (rs ++ r ∷ []) m ≡ ok (given ++ (r, a) ∷ [], m'')
  unfolding serial
  serial-snoc [] r m m' m'' a given h k = ground arith
  serial-snoc (s ∷ rs) r m m' m'' a given h k =
      let (first, e, h1) = >>=-eq-ok (visit sys wreck stack s m) _ h in
      let (rest, e2, h2) = >>=-eq-ok (serial rs first.1) _ h1 in
      ground (arith, serial-snoc rs r first.1 m' m'' a rest.0 (ground arith) k)

  -- What the puts of a run, behind what was queued, have become.
  abbrev pub Account :
      World sys wreck stack
      → List (Option DiskRequest)
      → World sys wreck stack
      → List DiskRequest
      → Type 0
  Account w es u rs =
      (serial rs w.machine ≡ ok (u.replies, u.machine))
      × (((u.running ≡ true) × (w.queue ++ es ≡ map some rs ++ u.queue))
          ⊎ ((u.running ≡ false) × (w.queue ++ es ≡ map some rs ++ none ∷ u.queue)))

  -- Whatever the interleaving of clients and worker, the requests served are the first ones of
  -- those put, in the order of the puts, and the machine and the replies are those of serving them
  -- one after the other on one thread; the rest is still queued, behind the `nullopt` if the worker
  -- has returned.
  pub Run-Account :
      (w u : World sys wreck stack) (es : List (Option DiskRequest))
      → w.replies ≡ []
      → w.running ≡ true
      → Run w es u
      → (rs : List DiskRequest) × Account w es u rs
  unfolding serial
  Run-Account w u es h k here = ([], (ground arith, inl (k, append-nil w.queue)))
  Run-Account w u es h k (more e r (puts v x)) =
      let (rs, (done, left)) = Run-Account w v _ h k r in
      (
        rs,
        (
          done,
          elim left [
            | inl (on, l) ↦ inl (on, behind w.queue _ (map some rs) v.queue x l)
            | inr (off, l) ↦ inr (off, behind w.queue _ (map some rs) (none ∷ v.queue) x l)
          ],
        ),
      )
  Run-Account w u es h k (more e r (serves v d q a m on front did)) =
      let (rs, (done, left)) = Run-Account w v _ h k r in
      (
        rs ++ d ∷ [],
        (
          serial-snoc rs d w.machine v.machine m a v.replies done did,
          elim left [
            | inl (_, l) ↦ inl (
              on,
              append-nil-right w.queue _ l
                  ∙ ap (map some rs ++◌) (get-front v.queue _ q front)
                  ∙ sym (map-snoc rs d q),
            )
            | inr (off, l) ↦ absurd (ground arith)
          ],
        ),
      )
  Run-Account w u es h k (more e r (returns v q on front)) =
      let (rs, (done, left)) = Run-Account w v _ h k r in
      (
        rs,
        (
          done,
          elim left [
            | inl (_, l) ↦ inr (
              refl,
              append-nil-right w.queue _ l ∙ ap (map some rs ++◌) (get-front v.queue _ q front),
            )
            | inr (off, l) ↦ absurd (ground arith)
          ],
        ),
      )

  -- What the worker does with a queue that ends in `nullopt`.
  start_worker_thread-serial :
      (rs : List DiskRequest) (m : Machine)
      → start_worker_thread sys wreck stack (map some rs ++ none ∷ []) m
        ≡ (serial rs m >>= λ done. ok (map (λ (a : DiskRequest × Reply). a.1) done.0, done.1, []))
  unfolding start_worker_thread serial
  start_worker_thread-serial [] m = refl
  start_worker_thread-serial (r ∷ rs) m =
      let visited = visit sys wreck stack r m in
      >>=-ext visited _ _ (λ first.
        ap (λ o. o >>= λ rest. ok (first.0 ∷ rest.0, rest.1, rest.2))
          (start_worker_thread-serial rs first.1)
        ∙ >>=-assoc (serial rs first.1) _ _
        ∙ sym (>>=-assoc (serial rs first.1) _ _))
      ∙ sym (>>=-assoc visited _ _)

  schedule-append :
      (q : Channel (Option DiskRequest)) (rs : List DiskRequest) → schedule q rs ≡ q ++ map some rs
  unfolding schedule
  schedule-append q [] = sym (append-nil q)
  schedule-append q (r ∷ rs) =
      schedule-append (put q (some r)) rs ∙ append_assoc q (some r ∷ []) (map some rs)

  -- Closing the scheduler serves every request that was scheduled, in order, before the worker
  -- returns, and leaves the queue empty; the call does not wait for ever.
  pub close-schedule :
      (rs : List DiskRequest) (m : Machine)
      → close sys wreck stack (schedule [] rs) m
        ≡ (serial rs m >>= λ done. ok (map (λ (a : DiskRequest × Reply). a.1) done.0, done.1, []))
  unfolding close
  close-schedule rs m =
      ap (λ q. start_worker_thread sys wreck stack (put q none) m) (schedule-append [] rs)
      ∙ start_worker_thread-serial rs m
