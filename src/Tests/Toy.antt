-- ===== src/Tests/Toy.antt =====
-- A small system: every call succeeds, files do not exist until they are opened for writing, and the
-- monotonic clock advances by one nanosecond with each reading.
use option_hedge.Base.{ℕ, ◌+◌, Bool, true, false, Option, none, some, []}
use option_hedge.Os.{Os, Sys, ok}
use option_hedge.Paged.Engine.{SystemWriter, Engine}
use option_hedge.Paged.Msg.{zero_msg}

abbrev pub toy_os : Os
toy_os = record {
  World = ℕ;
  open_file = λ path writable w. (if_writable writable, w);
  close_file = λ fd w. w;
  seek = λ fd offset w. (true, w);
  write_zero = λ fd w. (true, w);
  map_file = λ size writable fd w m. (some 4096, w, m);
  unmap = λ buffer size w. (true, w);
  advise_random = λ buffer size w. (true, w);
  lock_memory = λ buffer size w. (true, w);
  unlock_memory = λ buffer size w. (true, w);
  rename = λ from to w. (true, w);
  remove = λ path w. w;
  list_directory = λ dir w. some [];
  read_prefix = λ path n w. none;
  monotonic = λ w. (w, w + 1);
  unix_time = λ w. (1000, w);
}
  where
    if_writable : Bool → Option ℕ
    if_writable true = some 3
    if_writable false = none

abbrev pub toy_writer : SystemWriter toy_os
toy_writer = record {
  State = Unit {0};
  write_frame = λ bytes source msg_type is_last req v s. ok (v, s);
}

abbrev pub toy_sys : Sys toy_os
toy_sys = record { world = 2_500_000_000; mem = λ _. 0; timer = none }

abbrev pub toy_engine : Engine toy_os toy_writer
toy_engine = record {
  sys = toy_sys;
  client_journals = λ _. none;
  pid_client = λ _. none;
  file_writer_counts = λ _. none;
  file_reader_counts = λ _. none;
  file_addrs = λ _. none;
  writer = some tt;
  comm = λ _. zero_msg;
  comm_file = [];
  max_idx = 0;
  microsec_freq = 1000000;
  task_running = true;
  comm_running = true;
}
