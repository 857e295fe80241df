-- ===== src/Channel/Dispatch.antt =====
-- Which callbacks `handle_event` runs.
use reactor_network_lib.Common.{◌≡◌, List, Bool, ℕ, false, true, ◌↔◌, ◌⊎◌, [], length, ◌≤◌, arith}
use reactor_network_lib.Channel.{
  handle_event, Call, Channel, Bool, ℕ, false, true, ◌∷◌, reads, closes, errors, writes,
}

-- Whether a callback is among those run.
abbrev pub runs_read : List Call → Bool
runs_read [] = false
runs_read (reads _ ∷ cs) = true
runs_read (_ ∷ cs) = runs_read cs

abbrev pub runs_close : List Call → Bool
runs_close [] = false
runs_close (closes ∷ cs) = true
runs_close (_ ∷ cs) = runs_close cs

abbrev pub runs_error : List Call → Bool
runs_error [] = false
runs_error (errors ∷ cs) = true
runs_error (_ ∷ cs) = runs_error cs

abbrev pub runs_write : List Call → Bool
runs_write [] = false
runs_write (writes ∷ cs) = true
runs_write (_ ∷ cs) = runs_write cs

-- A channel with all four callbacks set reads exactly at input, urgent input or the peer's shutdown; it
-- closes exactly at a hang-up with no input left; an error or an invalid descriptor, and nothing else,
-- runs the error callback; output readiness, and nothing else, runs the write callback. No more than
-- four callbacks run, and of the channel only the flag `event_handling` changes.
pub handle_event_lem :
    (c : Channel) (now : ℕ)
    → c.read_callback ≡ true
    → c.write_callback ≡ true
    → c.error_callback ≡ true
    → c.close_callback ≡ true
    → let (calls, c') = handle_event c now in
      ((runs_read calls ≡ true)
        ↔ ((c.revents.pollin ≡ true) ⊎ ((c.revents.pollpri ≡ true) ⊎ (c.revents.pollrdhup ≡ true))))
      × ((runs_close calls ≡ true) ↔ ((c.revents.pollhup ≡ true) × (c.revents.pollin ≡ false)))
      × ((runs_error calls ≡ true) ↔ ((c.revents.pollerr ≡ true) ⊎ (c.revents.pollnval ≡ true)))
      × ((runs_write calls ≡ true) ↔ (c.revents.pollout ≡ true))
      × (length calls ≤ 4)
      × (c' ≡ record c { event_handling = false })
unfolding handle_event
handle_event_lem c now r w e k = ground arith

-- A callback that is not set is not run.
pub handle_event_unset :
    (c : Channel) (now : ℕ)
    → c.read_callback ≡ false
    → c.close_callback ≡ false
    → let calls = (handle_event c now).0 in (runs_read calls ≡ false) × (runs_close calls ≡ false)
unfolding handle_event
handle_event_unset c now r k = ground arith
