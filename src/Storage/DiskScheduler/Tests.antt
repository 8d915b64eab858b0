-- ===== src/Storage/DiskScheduler/Tests.antt =====
-- A scheduler on a file of three pages, on which no system call fails.
use database_internals.Prelude.{
  ◌==◌, ◌≡◌, refl, if◌then◌else◌, true, false, List, [], ◌∷◌, map, none, some, ok, ◌>>=◌, update,
}
use database_internals.Memory.{Memory, read_bytes, read_le, of_le}
use database_internals.Storage.DiskManager.{System, read_page, read_at}
use database_internals.Storage.DiskScheduler.{
  DiskRequest, read_request, Reply, value, exception, Machine, visit, settle, schedule, close,
  World, puts, serves, returns,
}
use database_internals.Storage.DiskScheduler.Order.{
  Run, here, more, Account, Run-Account, serial, close-schedule,
}

abbrev sound : System
sound = record { read_fails = λ f o. false; write_fails = λ f o. false }

-- The next page is page 3.
abbrev machine : Machine
machine = record {
  disk = record {
    file = record { bytes = λ a. 7; size = 12288 };
    global_metadata = λ a. if a == 16 then 3 else 0;
  };
  buffers = λ b a. 0;
}

abbrev keep : DiskRequest → Machine → Machine
keep r m = m

abbrev zeros : Memory
zeros a = 0

abbrev start : World sound keep zeros
start = record { queue = []; machine = machine; replies = []; running = true }

-- Page 1 read into buffer 5.
abbrev after_read : Machine
after_read = record machine { buffers = update machine.buffers 5 (λ a. 7) }

visits : visit sound keep zeros (read_request 1 5) machine ≡ ok (value, after_read)
unfolding visit settle read_page read_at read_le read_bytes of_le
visits = refl

abbrev final : World sound keep zeros
final = record {
  queue = [];
  machine = after_read;
  replies = (read_request 1 5, value) ∷ [];
  running = false;
}

-- A client puts a request, the destructor `nullopt`, and then the worker runs.
example-Run : Run sound keep zeros start (some (read_request 1 5) ∷ none ∷ []) final
example-Run =
    more none
      (more none
        (more (some none) (more (some (some (read_request 1 5))) here (puts _ _)) (puts _ none))
        (serves _ (read_request 1 5) (none ∷ []) value after_read refl refl visits))
      (returns _ [] refl refl)

Run-Account_example :
    (rs : List DiskRequest) × Account sound keep zeros start
      (some (read_request 1 5) ∷ none ∷ [])
      final
      rs
Run-Account_example =
    Run-Account sound keep zeros start final (some (read_request 1 5) ∷ none ∷ []) refl refl
      example-Run

close-schedule_example :
    close sound keep zeros (schedule [] (read_request 1 5 ∷ read_request 9 5 ∷ [])) machine ≡ (
      serial sound keep zeros (read_request 1 5 ∷ read_request 9 5 ∷ []) machine >>= λ done.
      ok (map (λ (a : DiskRequest × Reply). a.1) done.0, done.1, []))
close-schedule_example =
    close-schedule sound keep zeros (read_request 1 5 ∷ read_request 9 5 ∷ []) machine

-- A page that was never allocated: the request's promise is given the exception, and the worker
-- goes on.
throws :
    serial sound keep zeros (read_request 9 5 ∷ read_request 1 5 ∷ []) machine
    ≡ ok ((read_request 9 5, exception) ∷ (read_request 1 5, value) ∷ [], after_read)
unfolding serial visit settle read_page read_at read_le read_bytes of_le
throws = refl
