-- ===== src/Stream.antt =====
-- The base of up- and downstreams of fluent-bit/flb_stream.h. An `int` with flags is its bit
-- pattern of 32 digits; the network defaults and the mutex are code outside the headers.
pub mod Flags
pub mod Safety
mod Tests
use my_repo.Base.{
  ℕ, ◌-◌, ◌^◌, Bool, true, false, not, Option, none, some, bit_and, bit_or, ◌==◌, if◌then◌else◌,
}
use my_repo.MkList
use my_repo.MkList.{Ptr, null, Heap, M, pure, ◌>>=◌, ◌>>◌, success, failure}

abbrev pub io_tcp : ℕ
io_tcp = 1

abbrev pub io_tls : ℕ
io_tls = 2

abbrev pub io_opt_tls : ℕ
io_opt_tls = 4

abbrev pub io_async : ℕ
io_async = 8

abbrev pub io_tcp_ka : ℕ
io_tcp_ka = 16

abbrev pub io_ipv6 : ℕ
io_ipv6 = 32

pub record NetSetup : Type 0 where
  pub keepalive : ℕ
  pub keepalive_idle_timeout : ℕ
  pub connect_timeout : ℕ
  pub accept_timeout : ℕ
  pub accept_timeout_log_error : ℕ
  pub io_timeout : ℕ
  pub connect_timeout_log_error : ℕ
  pub source_address : Ptr
  pub keepalive_max_recycle : ℕ
  pub dns_mode : Ptr
  pub dns_resolver : Ptr
  pub dns_prefer_ipv4 : ℕ
  pub max_worker_connections : ℕ

-- `link` is the address of the field `_head`.
pub record Stream : Type 0 where
  pub dynamically_allocated : Bool
  pub thread_safety_flag : Bool
  pub transport : ℕ
  pub flags : ℕ
  pub type : ℕ
  pub tls_context : Ptr
  pub config : Ptr
  pub net : NetSetup
  pub link : Ptr

-- `net_setup` is `none` for NULL.
unfoldable pub setup :
    (flb_net_setup_init : NetSetup → NetSetup)
    → Stream
    → (type transport flags : ℕ) (tls_context config : Ptr) → Option NetSetup
    → Stream
setup flb_net_setup_init stream type transport flags tls_context config net_setup = record stream {
  thread_safety_flag = false;
  tls_context = tls_context;
  transport = transport;
  config = config;
  flags = flags;
  type = type;
  net = elim net_setup [ none ↦ flb_net_setup_init stream.net | some net ↦ net ];
}

abbrev pub get_flags : Stream → ℕ
get_flags stream = stream.flags

abbrev pub set_flags : Stream → ℕ → Stream
set_flags stream flags = record stream { flags = flags }

-- `~flag`
abbrev pub complement : ℕ → ℕ
complement flag = 2 ^ 32 - 1 - flag

unfoldable pub get_flag_status : Stream → ℕ → Bool
get_flag_status stream flag = not (bit_and (get_flags stream) flag == 0)

unfoldable pub enable_flags : Stream → ℕ → Stream
enable_flags stream flag = set_flags stream (bit_or (get_flags stream) flag)

unfoldable pub disable_flags : Stream → ℕ → Stream
disable_flags stream flag = set_flags stream (bit_and (get_flags stream) (complement flag))

abbrev pub enable_async_mode : Stream → Stream
enable_async_mode stream = enable_flags stream io_async

abbrev pub disable_async_mode : Stream → Stream
disable_async_mode stream = disable_flags stream io_async

abbrev pub is_async : Stream → Bool
is_async stream = get_flag_status stream io_async

abbrev pub enable_keepalive : Stream → Stream
enable_keepalive stream = enable_flags stream io_tcp_ka

abbrev pub disable_keepalive : Stream → Stream
disable_keepalive stream = disable_flags stream io_tcp_ka

abbrev pub is_keepalive : Stream → Bool
is_keepalive stream = get_flag_status stream io_tcp_ka

abbrev pub is_secure : Stream → Bool
is_secure stream = get_flag_status stream io_tls

abbrev pub is_thread_safe : Stream → Bool
is_thread_safe stream = stream.thread_safety_flag

-- Without the effect of `pthread_mutex_init`.
unfoldable pub enable_thread_safety : Stream → M Stream
unfolding MkList.entry_orphan MkList.del
enable_thread_safety stream = do
  orphan ← MkList.entry_orphan stream.link
  elim orphan [
    | success ↦ do MkList.del stream.link; pure (record stream { thread_safety_flag = true })
    | failure ↦ pure (record stream { thread_safety_flag = true })
  ]

-- The mutex is a state `S` of the thread library, whose functions answer 0 or an error number.
module _ {S : Type 0} (mutex_lock mutex_trylock mutex_unlock : S → ℕ × S) where
  unfoldable pub acquire_lock : Stream → (wait_flag : Bool) → S → Bool × S
  acquire_lock stream wait_flag s =
      let (result, s') =
        if stream.thread_safety_flag
        then if wait_flag then mutex_lock s else mutex_trylock s
        else (0, s) in
      if result == 0 then (true, s') else (false, s')

  unfoldable pub release_lock : Stream → S → Bool × S
  release_lock stream s =
      let (result, s') = if stream.thread_safety_flag then mutex_unlock s else (0, s) in
      if result == 0 then (true, s') else (false, s')
