-- ===== src/ThreadChannel/Ends.antt =====
-- Sender and receiver do not disturb each other.
use my_repo.Base.{ℕ, ◌≡◌, refl}
use my_repo.ThreadChannel.{
  ThreadChannel, get_sender, set_sender, get_receiver, set_receiver, channel_done, channel_end,
}

-- If `mk_thread_add_channel` leaves the channel as it is, a channel whose sender and then receiver
-- were set, and which was ended, has that sender and that receiver, is ended, and is done exactly if
-- it was before.
pub set_receiver-set_sender :
    {S : Type 0} (add : ℕ → S → S) (chan : ThreadChannel) (sender receiver : ℕ) (s : S)
    → let (chan', s') =
        set_receiver (λ id c t. (c, add id t)) (set_sender chan sender) receiver s in
      (get_sender (channel_end chan') ≡ sender)
      × (get_receiver (channel_end chan') ≡ receiver)
      × ((channel_end chan').ended ≡ 1)
      × (channel_done (channel_end chan') ≡ channel_done chan)
      × (s' ≡ add receiver s)
unfolding get_sender set_sender get_receiver set_receiver channel_done channel_end
set_receiver-set_sender add chan sender receiver s = (refl, refl, refl, refl, refl)
