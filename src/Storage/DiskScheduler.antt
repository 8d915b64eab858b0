-- ===== src/Storage/DiskScheduler.antt =====
-- storage/disk_scheduler.h, storage/disk_scheduler.cpp and common/channel.h: the queue of requests
-- and the worker thread that serves them. `std::nullopt` in the queue is `none`. A request carries
-- a pointer, so the page's bytes are those of the buffer when the worker comes to it; the promise
-- of a request is the place of its reply.
pub mod Order
mod Tests
use database_internals.Prelude.{
  ℕ, List, [], ◌∷◌, ◌++◌, map, Option, none, some, Outcome, ok, aborted, undefined, thrown, waits,
  ◌>>=◌, update, ◌≡◌, Bool, true, false,
}
use database_internals.Memory.{Memory}
use database_internals.Storage.DiskManager.{
  System, DiskManager, read_page, write_page, allocate_page, deallocate_page,
}

-- `Channel`: the front first.
abbrev pub Channel {ℓ} : Type ℓ → Type ℓ
Channel A = List A

abbrev pub put {ℓ} : {A : Type ℓ} → Channel A → A → Channel A
put q element = q ++ element ∷ []

-- `Get` waits for an element.
abbrev pub get {ℓ} : {A : Type ℓ} → Channel A → Outcome (A × Channel A)
get [] = waits
get (element ∷ q) = ok (element, q)

-- `buffer` is `data`, the buffer's address.
pub data DiskRequest : Type 0 where
  read_request : (page_id buffer : ℕ) → DiskRequest
  write_request : (page_id buffer : ℕ) → DiskRequest
  allocate_request : DiskRequest
  deallocate_request : (page_id : ℕ) → DiskRequest

-- What the promise is given.
pub data Reply : Type 0 where
  value : Reply
  page_value : ℕ → Reply
  exception : Reply

pub record Machine : Type 0 where
  pub disk : DiskManager
  pub buffers : ℕ → Memory

unfoldable pub schedule :
    Channel (Option DiskRequest) → List DiskRequest → Channel (Option DiskRequest)
schedule q [] = q
schedule q (r ∷ rs) = schedule (put q (some r)) rs

unfoldable pub schedule_single :
    Channel (Option DiskRequest) → DiskRequest → Channel (Option DiskRequest)
schedule_single q r = put q (some r)

-- `future.get()`, where the value is not used.
unfoldable pub future_get : Reply × Machine → Outcome Machine
future_get (value, m) = ok m
future_get (page_value p, m) = ok m
future_get (exception, m) = thrown

-- `wreck` is what a call that throws leaves, and `stack` what the local page of `deallocatePage`
-- holds.
module _ (sys : System) (wreck : DiskRequest → Machine → Machine) (stack : Memory) where
  -- `set_value`, or the handler's `set_exception`.
  unfoldable pub settle :
      {A : Type 0} → Machine → (A → Reply × Machine) → Outcome A → Outcome (Reply × Machine)
  settle s next (ok a) = ok (next a)
  settle s next aborted = aborted
  settle s next undefined = undefined
  settle s next thrown = ok (exception, s)
  settle s next waits = waits

  -- The body of the worker's loop behind `Get`.
  unfoldable pub visit : DiskRequest → Machine → Outcome (Reply × Machine)
  unfolding settle
  visit (read_request page_id buffer) m =
      settle (wreck (read_request page_id buffer) m)
        (λ page. (value, record m { buffers = update m.buffers buffer page }))
        (read_page sys m.disk page_id)
  visit (write_request page_id buffer) m =
      settle (wreck (write_request page_id buffer) m) (λ d. (value, record m { disk = d }))
        (write_page sys m.disk page_id (m.buffers buffer))
  visit allocate_request m =
      settle (wreck allocate_request m) (λ r. (page_value r.0, record m { disk = r.1 }))
        (allocate_page sys m.disk)
  visit (deallocate_request page_id) m =
      settle (wreck (deallocate_request page_id) m) (λ d. (value, record m { disk = d }))
        (deallocate_page sys m.disk page_id stack)

  -- `StartWorkerThread`, until `nullopt` or until the queue is empty: the replies, the machine and
  -- what is left in the queue.
  unfoldable pub start_worker_thread :
      Channel (Option DiskRequest)
      → Machine
      → Outcome (List Reply × Machine × Channel (Option DiskRequest))
  unfolding visit
  start_worker_thread [] m = waits
  start_worker_thread (none ∷ q) m = ok ([], m, q)
  start_worker_thread (some r ∷ q) m = do
    first ← visit r m
    rest ← start_worker_thread q first.1
    ok (first.0 ∷ rest.0, rest.1, rest.2)

  -- The destructor: the worker is joined.
  pub close :
      Channel (Option DiskRequest)
      → Machine
      → Outcome (List Reply × Machine × Channel (Option DiskRequest))
  unfolding start_worker_thread
  close q m = start_worker_thread (put q none) m

  -- A client of an idle scheduler that schedules one request and waits for the promise.
  unfoldable pub served : Option DiskRequest → Machine → Outcome (Reply × Machine)
  unfolding visit
  served none m = waits
  served (some r) m = visit r m

  unfoldable pub await : DiskRequest → Machine → Outcome (Reply × Machine)
  unfolding schedule_single served
  await r m = do front ← get (schedule_single [] r); served front.0 m

  pub scheduler_deallocate_page : (page_id : ℕ) → Machine → Outcome Machine
  unfolding await future_get
  scheduler_deallocate_page page_id m = await (deallocate_request page_id) m >>= future_get

  -- The worker and its clients as one system; `replies` are in the order in which they were given.
  pub record World : Type 0 where
    pub queue : Channel (Option DiskRequest)
    pub machine : Machine
    pub replies : List (DiskRequest × Reply)
    pub running : Bool

  -- One step of some thread. A client may put at any time, also behind the destructor's `nullopt`.
  pub data Step : World → Option (Option DiskRequest) → World → Type 0 where
    puts :
        (w : World) (e : Option DiskRequest) → Step w (some e) (record w { queue = put w.queue e })
    serves :
        (w : World) (r : DiskRequest) (q : Channel (Option DiskRequest)) (a : Reply) (m : Machine)
        → w.running ≡ true
        → get w.queue ≡ ok (some r, q)
        → visit r w.machine ≡ ok (a, m)
        → Step w none (record w { queue = q; machine = m; replies = w.replies ++ (r, a) ∷ [] })
    returns :
        (w : World) (q : Channel (Option DiskRequest))
        → w.running ≡ true
        → get w.queue ≡ ok (none, q)
        → Step w none (record w { queue = q; running = false })
