-- ===== src/ThreadChannel.antt =====
-- The ends of a channel between threads: the inline functions of monkey/mk_core/mk_thread_channel.h.
pub mod Ends
use my_repo.Base.{ℕ}

-- The numbers are bit patterns of `int`.
pub record ThreadChannel : Type 0 where
  pub sender : ℕ
  pub receiver : ℕ
  pub ended : ℕ
  pub done : ℕ

unfoldable pub get_sender : ThreadChannel → ℕ
get_sender chan = chan.sender

unfoldable pub set_sender : ThreadChannel → (sender : ℕ) → ThreadChannel
set_sender chan sender = record chan { sender = sender }

unfoldable pub get_receiver : ThreadChannel → ℕ
get_receiver chan = chan.receiver

-- `mk_thread_add_channel` is code outside the headers, which may change the channel.
unfoldable pub set_receiver :
    {S : Type 0}
    → (thread_add_channel : ℕ → ThreadChannel → S → ThreadChannel × S) → ThreadChannel
    → (receiver : ℕ) → S
    → ThreadChannel × S
set_receiver thread_add_channel chan receiver s =
    thread_add_channel receiver (record chan { receiver = receiver }) s

unfoldable pub channel_done : ThreadChannel → ℕ
channel_done chan = chan.done

unfoldable pub channel_end : ThreadChannel → ThreadChannel
channel_end chan = record chan { ended = 1 }
