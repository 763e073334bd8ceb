-- ===== src/Session/Runs.antt =====
-- A session at a concrete run: it starts, a frame is sent to it, and the write ends.
use zem.Base.{
  zero, suc, ap, if◌then◌else◌, length, replicate, true, false, ℕ, ◌≡◌, ◌<◌, ◌≤◌, refl, ◌⊎◌, Option,
  none, some, List, [], ◌∷◌, arith,
}
use zem.Protocol.{login}
use zem.Protocol.Runs.{digits}
use zem.Session.State.{
  TcpSession, Batch, WriteData, frame, start_handling, size_t_values, starting, low_water,
}
use zem.Session.Write.{gather, empty_batch}
use zem.Session.Send.{send_frame, run_frame, make_item}
use zem.Session.Write.{drain, is_empty}
use zem.Session.Send.{admit, enqueue, size_of_body}
use zem.Session.State.{resuming, at_header}
use zem.Session.Steps.{starts_reading}
use zem.Session.Read.{read_next, Handler}
use zem.Session.Steps.{Reach, begin, next, sends, runs_frame, with_tasks}
use zem.Session.Batch.{total}
use zem.Session.Longest.{Longest, gather-Longest}
use zem.Session.Invariant.{Inv}
use zem.Session.Reached.{Reach-Inv}
use zem.Session.Waking.{Reach-waiting}
use zem.Base.{◌-◌}
use zem.Protocol.{to_service_type, to_code, header_of_bytes}
use zem.Protocol.ApiVersion.{is_supported_for}
use zem.Session.State.{at_body, soft_idle}
use zem.Session.Read.{on_header, on_fields, by_type, on_request}
use zem.Session.Heartbeat.{on_interval, on_grace}
use zem.Session.Silence.{Expired, Pinged, Sleeps, on_interval_lem}
use zem.Session.Requests.{Asked, on_header-Asked}
use zem.Session.Stream.{outgoing}
use zem.Session.Given.{given, Reach-given}

abbrev pub no_handlers : List (Handler ℕ)
no_handlers = []

abbrev pub fresh : TcpSession
fresh = start_handling 1000

abbrev pub body : Option (List ℕ)
body = some (0 ∷ 0 ∷ 0 ∷ 1 ∷ [])

abbrev asked : TcpSession
asked = send_frame login body 1 fresh

abbrev pub writing : TcpSession
writing = run_frame digits login body 1 (with_tasks asked [])

asked-tasks : asked.tasks ≡ frame login body 1 ∷ []
unfolding send_frame start_handling
asked-tasks = refl

asked-Reach : Reach digits no_handlers asked
asked-Reach = next (begin 1000) (sends login body 1)

pub writing-Reach : Reach digits no_handlers writing
writing-Reach = next asked-Reach (runs_frame login body 1 [] asked-tasks)

abbrev two_items : List WriteData
two_items = make_item digits login body 1 ∷ make_item digits login none 1 ∷ []

small : total two_items < size_t_values
unfolding make_item
small = omega arith

gather-Longest_example : Longest two_items (gather empty_batch two_items)
gather-Longest_example = gather-Longest two_items small

Reach-Inv_example : Inv writing
Reach-Inv_example = Reach-Inv digits no_handlers writing-Reach

Reach-given_example : outgoing writing ≡ given digits no_handlers writing-Reach
Reach-given_example = Reach-given digits no_handlers writing-Reach

-- A session to which a body of 1.2 MB was sent, and whose read loop then waits.
abbrev sent_to : List ℕ → TcpSession
sent_to bs = send_frame login (some bs) 1 fresh

abbrev writing_of : List ℕ → TcpSession
writing_of bs = run_frame digits login (some bs) 1 (with_tasks (sent_to bs) [])

abbrev waiting_with : List ℕ → TcpSession
waiting_with bs = read_next (writing_of bs)

sent_to-tasks : (bs : List ℕ) → (sent_to bs).tasks ≡ frame login (some bs) 1 ∷ []
unfolding send_frame start_handling
sent_to-tasks bs = refl

module _ (bs : List ℕ) (h : length bs ≡ 1200000) where
  writing_of-fields :
      ((writing_of bs).reading ≡ starting)
      × ((writing_of bs).backpressure ≡ true)
      × ((writing_of bs).is_closed ≡ false)
  unfolding run_frame admit enqueue drain is_empty make_item size_of_body send_frame start_handling
  writing_of-fields = rw h (refl, refl, refl)

  waiting_with-reading : (waiting_with bs).reading ≡ resuming
  unfolding read_next
  waiting_with-reading = ap (λ b. if b then resuming else at_header) writing_of-fields.1

  waiting_with-is_closed : (waiting_with bs).is_closed ≡ false
  unfolding read_next
  waiting_with-is_closed = writing_of-fields.2

  waiting_with-Reach : Reach digits no_handlers (waiting_with bs)
  waiting_with-Reach =
      next
        (next (next (begin 1000) (sends login (some bs) 1))
          (runs_frame login (some bs) 1 [] (sent_to-tasks bs)))
        (starts_reading writing_of-fields.0)

pub length-replicate : (n : ℕ) → length {A = ℕ} (replicate n 0) ≡ n
length-replicate zero = refl
length-replicate (suc n) = ap suc (length-replicate n)

abbrev pub megabyte : List ℕ
megabyte = replicate 1200000 0

Reach-waiting_example :
    ((waiting_with megabyte).backpressure ≡ true)
    × (low_water < total (waiting_with megabyte).write_queue)
    × ((b : Batch) × ((waiting_with megabyte).flight ≡ some b))
Reach-waiting_example =
    Reach-waiting digits no_handlers (waiting_with-Reach megabyte (length-replicate 1200000))
      (waiting_with-is_closed megabyte (length-replicate 1200000))
      (waiting_with-reading megabyte (length-replicate 1200000))

fresh-last_rx : fresh.last_rx ≤ 50000
unfolding start_handling
fresh-last_rx = omega arith

fresh-is_closed : fresh.is_closed ≡ false
unfolding start_handling
fresh-is_closed = refl

on_interval_lem_example :
    (Expired 50000 fresh (on_interval false 50000 7 fresh)
      ⊎ Pinged 50000 fresh (on_interval false 50000 7 fresh)
      ⊎ ((50000 - fresh.last_rx < soft_idle)
          × Sleeps 50000 fresh (on_interval false 50000 7 fresh)))
    × (Expired 50000 fresh (on_grace false 50000 7 fresh)
        ⊎ Sleeps 50000 fresh (on_grace false 50000 7 fresh))
on_interval_lem_example = on_interval_lem 50000 7 fresh fresh-last_rx (omega arith) fresh-is_closed

-- A header of a login of 300 bytes.
abbrev header : List ℕ
header = 0 ∷ 0 ∷ 0 ∷ 2 ∷ 0 ∷ 0 ∷ 1 ∷ 44 ∷ 0 ∷ 1 ∷ []

header-at_body : (on_header digits (some header) 5 fresh).reading ≡ at_body login 1 300
unfolding on_header on_fields by_type on_request header_of_bytes to_service_type to_code
    is_supported_for start_handling
header-at_body = refl

on_header-Asked_example :
    let h = header_of_bytes digits header in
    Asked (to_service_type h.service_type) h.api_version h.data_size login 1 300
on_header-Asked_example = on_header-Asked digits header 5 fresh login 1 300 header-at_body
