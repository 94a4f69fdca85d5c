-- ===== src/Stream/Tests.antt =====
-- The theorems on flb_stream.h at a stream that is the entry 2 of a list with the head 1.
use my_repo.Base.{◌≡◌, refl, true, false, arith, ◌==◌, if◌then◌else◌}
use my_repo.MkList.{Heap}
use my_repo.MkList.Ring.{Ring}
use my_repo.Stream.{
  Stream, NetSetup, get_flag_status, enable_flags, disable_flags, is_async, is_keepalive,
  enable_async_mode, disable_keepalive,
}
use my_repo.Stream.Flags.{get_flag_status-enable_flags, get_flag_status-disable_flags}

abbrev net : NetSetup
net = record {
  keepalive = 1;
  keepalive_idle_timeout = 30;
  connect_timeout = 10;
  accept_timeout = 10;
  accept_timeout_log_error = 1;
  io_timeout = 0;
  connect_timeout_log_error = 1;
  source_address = 0;
  keepalive_max_recycle = 2000;
  dns_mode = 0;
  dns_resolver = 0;
  dns_prefer_ipv4 = 0;
  max_worker_connections = 0;
}

abbrev stream : Stream
stream = record {
  dynamically_allocated = true;
  thread_safety_flag = false;
  transport = 1;
  flags = 17;
  type = 2;
  tls_context = 0;
  config = 100;
  net = net;
  link = 2;
}

-- The nodes 1 and 2 in a ring.
abbrev store : Heap
store = record {
  live = λ c. true;
  next = λ c. if c == 1 then 2 else if c == 2 then 1 else 0;
  prev = λ c. if c == 1 then 2 else if c == 2 then 1 else 0;
}

get_flag_status-enable_flags_example : get_flag_status (enable_flags stream 8) 8 ≡ true
get_flag_status-enable_flags_example = get_flag_status-enable_flags stream 3 3

get_flag_status-disable_flags_example : get_flag_status (disable_flags stream 16) 16 ≡ false
get_flag_status-disable_flags_example =
    get_flag_status-disable_flags stream 4 4 (omega arith) (omega arith)

async_run : is_async (enable_async_mode stream) ≡ true
unfolding get_flag_status enable_flags
async_run = refl

keepalive_run : is_keepalive (disable_keepalive (enable_async_mode stream)) ≡ false
unfolding get_flag_status enable_flags disable_flags
keepalive_run = refl
