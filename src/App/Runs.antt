-- ===== src/App/Runs.antt =====
-- A context at concrete inputs: pools whose connections open.
use zem.Base.{ℕ, ◌%◌, ◌^◌, ◌≡◌, ◌≢◌, ◌↔◌, false, none, some, ltb, if◌then◌else◌, [], ◌∷◌, arith}
use zem.Db.{Pool, timed_out, row}
use zem.App.Env.{Config}
use zem.App.Context.{Host, thread_count, system_error, soci_error, other_error}
use zem.App.Lifetime.{thread_count-zero}

abbrev many : ℕ
many = 4294967296

thread_count-zero_example : (thread_count 8 many ≡ 0) ↔ ((many ≢ 0) × (many % 2 ^ 32 ≡ 0))
thread_count-zero_example = thread_count-zero 8 many (omega arith)

abbrev opening : ℕ → Pool ℕ
opening size = record {
  try_lease = λ ms w. (timed_out, w);
  select_password = λ p id w. (row false false [], w);
  give_back = λ p w. w;
  opens = λ p c w. (false, w);
}

abbrev config : Config
config = record {
  db = record { address = []; port = []; name = []; user = []; password = [] };
  port = 80;
  db_pool_size = 1;
  db_thread_count = 3;
}

-- A host where everything can be had.
abbrev host : Host ℕ
host = record {
  directory = 47 ∷ [];
  time = 49 ∷ [];
  hardware_concurrency = 8;
  make_pool = opening;
  log_file_throws = λ path. none;
  thread_pool_throws = λ n. if ltb 2147483647 n then some other_error else none;
  connection_throws = soci_error;
  server_throws = λ port. none;
  run_throws = none;
}

-- One where the port is taken.
abbrev busy : Host ℕ
busy = record host { server_throws = λ port. some system_error }
