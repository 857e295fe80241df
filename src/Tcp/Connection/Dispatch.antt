-- ===== src/Tcp/Connection/Dispatch.antt =====
-- A connection's channel and its handlers: what `handle_event` of event_loop/Channel.cpp calls, by the
-- callbacks that the constructor of tcp/TcpConnection.cpp has set.
use reactor_network_lib.Tcp.Connection.{
  Connection, handle_read, handle_write, handle_close, handle_error, after_read, Written, is_open,
  emit, with_channel, tells_close, updates_channel, Outcome, List, ℕ,
}
use reactor_network_lib.Channel.{
  Channel, Call, handle_event, reads, writes, closes, errors, k_none_event, disable_all, is_writing,
}
use reactor_network_lib.Buffer.{Readv, Buffer, read_fd, count}
use reactor_network_lib.Common.{
  Outcome, List, ℕ, ok, ◌≡◌, ◌>>=◌, ◌∷◌, true, false, [], ◌++◌, refl, if◌then◌else◌, arith, Bool,
  ap, ◌∙◌,
}

-- One callback, with what the system calls in it return.
pub handle : Readv → Written → Call → Connection → Outcome Connection
handle r w (reads time) c = handle_read r c
handle r w writes c = handle_write w c
handle r w closes c = handle_close c
handle r w errors c = ok (handle_error c)

pub handle_all : Readv → Written → List Call → Connection → Outcome Connection
unfolding handle
handle_all r w [] c = ok c
handle_all r w (k ∷ ks) c = do c' ← handle r w k c; handle_all r w ks c'

-- The loop handles the events that the channel has received.
pub on_event : Readv → Written → ℕ → Connection → Outcome Connection
unfolding handle_all
on_event r w now c = do
  let calls = (handle_event c.channel now).0
  c' ← handle_all r w calls (record c { channel = record c.channel { event_handling = true } })
  ok (record c' { channel = record c'.channel { event_handling = false } })

-- The connection after the close that `handle_read` finds.
abbrev closed : Buffer → Connection → Connection
closed b c = emit tells_close (with_channel (disable_all c.channel) (record c { input_buffer = b }))

read_end :
    (r : Readv) (c : Connection) (b : Buffer)
    → is_open c.state ≡ true
    → read_fd c.input_buffer r ≡ ok (count 0, b)
    → handle_read r c ≡ ok (closed b c)
unfolding handle_read after_read handle_close
read_end r c b up ended = rw (ended, up) refl

write_closed :
    (w : Written) (b : Buffer) (c : Connection) → handle_write w (closed b c) ≡ ok (closed b c)
unfolding handle_write is_writing disable_all
write_closed w b c = refl

calls_lem :
    (c : Channel) (now : ℕ)
    → c.read_callback ≡ true
    → c.write_callback ≡ true
    → c.revents.pollin ≡ true
    → c.revents.pollerr ≡ false
    → c.revents.pollnval ≡ false
    → (handle_event c now).0 ≡ reads now ∷ (if c.revents.pollout then writes ∷ [] else [])
unfolding handle_event
calls_lem c now on_read on_write input no_error no_nval = ground arith

read_then :
    (r : Readv) (w : Written) (now : ℕ) (c : Connection) (b : Buffer) (writable : Bool)
    → is_open c.state ≡ true
    → read_fd c.input_buffer r ≡ ok (count 0, b)
    → handle_all r w (reads now ∷ (if writable then writes ∷ [] else [])) c ≡ ok (closed b c)
unfolding handle_all handle
read_then r w now c b true up ended = rw (read_end r c b up ended) (rw (write_closed w b c) refl)
read_then r w now c b false up ended = rw (read_end r c b up ended) refl

pub end_of_stream_lem :
    (r : Readv) (w : Written) (now : ℕ) (c : Connection) (b : Buffer)
    → is_open c.state ≡ true
    → c.channel.read_callback ≡ true
    → c.channel.write_callback ≡ true
    → c.channel.revents.pollin ≡ true
    → c.channel.revents.pollerr ≡ false
    → c.channel.revents.pollnval ≡ false
    → read_fd c.input_buffer r ≡ ok (count 0, b)
    → (c' : Connection) × (on_event r w now c ≡ ok c')
      × (c'.effects ≡ (c.effects ++ updates_channel k_none_event ∷ []) ++ tells_close ∷ [])
      × (c'.state ≡ c.state)
      × (c'.channel.events ≡ k_none_event)
unfolding on_event disable_all
end_of_stream_lem r w now c b up on_read on_write input no_error no_nval ended =
    let c1 : Connection = record c { channel = record c.channel { event_handling = true } } in
    let c2 = closed b c1 in
    let finish : Connection → Outcome Connection =
      λ k. ok (record k { channel = record k.channel { event_handling = false } }) in
    (
      record c2 { channel = record c2.channel { event_handling = false } },
      ap (λ ks. handle_all r w ks c1 >>= finish)
            (calls_lem c.channel now on_read on_write input no_error no_nval)
          ∙ ap (λ o. o >>= finish) (read_then r w now c1 b c.channel.revents.pollout up ended),
      refl,
      refl,
      refl,
    )
