-- ===== src/Session/StuckRuns.antt =====
-- A session that comes to wait for ever: its handler takes its time, meanwhile much is sent to its client,
-- and the client goes away.
use zem.Base.{
  ℕ, ◌≡◌, refl, ap, if◌then◌else◌, length, replicate, true, false, some, none, List, [], ◌∷◌, ◌++◌,
  ◌∙◌,
}
use zem.Protocol.{login}
use zem.Protocol.{to_service_type, to_code, header_of_bytes}
use zem.Protocol.ApiVersion.{is_supported_for}
use zem.Protocol.Runs.{digits}
use zem.Session.State.{
  Batch, TcpSession, cleanup, frame, start_handling, shutdown, clean_up, woken, resuming, at_header,
  at_body, handling,
}
use zem.Session.Write.{drain, is_empty, failed}
use zem.Session.Send.{send_frame, run_frame, make_item, admit, enqueue, size_of_body, perform_all}
use zem.Session.Read.{
  Handler, handler_of, read_next, on_header, on_fields, by_type, on_request, on_body, on_handled,
}
use zem.Session.Steps.{
  Reach, begin, next, here, after, starts_reading, reads_header, reads_body, sends, runs_frame,
  closes, runs_cleanup, fails_to_write, handles, with_tasks,
}
use zem.Session.Goes.{cleanups}
use zem.Session.Stuck.{Stuck, Later-Stuck}
use zem.Session.Runs.{length-replicate, megabyte}

-- A handler that asks nothing of its connection.
abbrev idle : Handler ℕ
idle version body w = record { calls = []; threw = false; world = w }

abbrev pub idle_handlers : List (Handler ℕ)
idle_handlers = replicate 4 idle

-- The header of a login of one byte.
abbrev short_header : List ℕ
short_header = 0 ∷ 0 ∷ 0 ∷ 2 ∷ 0 ∷ 0 ∷ 0 ∷ 1 ∷ 0 ∷ 1 ∷ []

abbrev reading : TcpSession
reading = read_next (start_handling 0)

abbrev asking : TcpSession
asking = on_header digits (some short_header) 1 reading

abbrev pub in_handler : TcpSession
in_handler = on_body login 1 (some (9 ∷ [])) 2 asking

module _ (bs : List ℕ) where
  abbrev writing : TcpSession
  writing =
      run_frame digits login (some bs) 1 (with_tasks (send_frame login (some bs) 1 in_handler) [])

  abbrev gone : TcpSession
  gone = failed 0 (clean_up (with_tasks (shutdown writing) []))

  abbrev waiting : TcpSession
  waiting = on_handled (idle 1 (9 ∷ []) 0) gone

asking_reading : asking.reading ≡ at_body login 1 1
unfolding on_header on_fields by_type on_request header_of_bytes to_service_type to_code
    is_supported_for read_next start_handling
asking_reading = refl

pub in_handler-Reach : Reach digits idle_handlers in_handler
unfolding read_next start_handling
in_handler-Reach =
    next (next (next (begin 0) (starts_reading refl)) (reads_header short_header 1 refl refl))
      (reads_body login 1 1 (9 ∷ []) 2 asking_reading refl)

module _ (bs : List ℕ) (h : length bs ≡ 1200000) where
  queued_tasks : (send_frame login (some bs) 1 in_handler).tasks ≡ frame login (some bs) 1 ∷ []
  unfolding send_frame on_body on_header on_fields by_type on_request header_of_bytes
      to_service_type to_code is_supported_for read_next start_handling
  queued_tasks = refl

  waiting-fields :
      ((writing bs).is_closed ≡ false)
      × ((writing bs).backpressure ≡ true)
      × ((writing bs).tasks ≡ [])
      × ((writing bs).reading ≡ handling login 1 (9 ∷ []))
  unfolding run_frame admit enqueue drain is_empty make_item size_of_body send_frame on_body
      on_header on_fields by_type on_request header_of_bytes to_service_type to_code
      is_supported_for read_next start_handling
  waiting-fields = rw h (refl, refl, refl, refl)

  in_flight : (b : Batch) × ((writing bs).flight ≡ some b)
  unfolding run_frame admit enqueue drain is_empty make_item size_of_body send_frame on_body
      on_header on_fields by_type on_request header_of_bytes to_service_type to_code
      is_supported_for read_next start_handling
  in_flight = rw h (_, refl)

  -- What the session is after `Shutdown`, the cleanup and the error of the write.
  shut_tasks : (shutdown (writing bs)).tasks ≡ cleanup ∷ []
  unfolding shutdown
  shut_tasks = rw waiting-fields.0 (ap (λ ts. ts ++ cleanup ∷ []) waiting-fields.2)

  shut_same :
      ((shutdown (writing bs)).backpressure ≡ true)
      × ((shutdown (writing bs)).is_closed ≡ true)
      × ((shutdown (writing bs)).flight ≡ (writing bs).flight)
      × ((shutdown (writing bs)).reading ≡ handling login 1 (9 ∷ []))
  unfolding shutdown
  shut_same = rw waiting-fields.0 (waiting-fields.1, refl, refl, waiting-fields.3)

  gone-fields :
      ((gone bs).backpressure ≡ true)
      × ((gone bs).is_closed ≡ true)
      × ((gone bs).flight ≡ none)
      × ((gone bs).tasks ≡ [])
      × ((gone bs).reading ≡ handling login 1 (9 ∷ []))
  unfolding failed clean_up shutdown woken
  gone-fields =
      rw waiting-fields.0 (waiting-fields.1, refl, refl, refl, ap woken waiting-fields.3 ∙ refl)

  waiting-Stuck : Stuck (waiting bs)
  unfolding on_handled read_next perform_all
  waiting-Stuck = record {
    waits = ap (λ b. if b then resuming else at_header) gone-fields.0;
    closed = gone-fields.1;
    cleaned = ap cleanups gone-fields.3;
    landed = gone-fields.2;
  }

  cleaned_flight : (clean_up (with_tasks (shutdown (writing bs)) [])).flight ≡ some in_flight.0
  unfolding clean_up
  cleaned_flight = shut_same.2 ∙ in_flight.1

  idle_found : handler_of idle_handlers login ≡ some idle
  unfolding handler_of to_code
  idle_found = refl

  waiting-Reach : Reach digits idle_handlers (waiting bs)
  waiting-Reach =
      next
        (next
          (next
            (next
              (next (next in_handler-Reach (sends login (some bs) 1))
                (runs_frame login (some bs) 1 [] queued_tasks))
              closes)
            (runs_cleanup [] shut_tasks))
          (fails_to_write in_flight.0 0 cleaned_flight))
        (handles login 1 (9 ∷ []) idle 0 gone-fields.4 idle_found)

-- That state is reached.
megabyte_waiting-Reach : Reach digits idle_handlers (waiting megabyte)
megabyte_waiting-Reach = waiting-Reach megabyte (length-replicate 1200000)

Later-Stuck_example : Stuck (shutdown (waiting megabyte))
Later-Stuck_example =
    Later-Stuck digits idle_handlers (after here closes)
      (waiting-Stuck megabyte (length-replicate 1200000))
