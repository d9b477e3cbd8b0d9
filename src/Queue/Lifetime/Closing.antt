-- ===== src/Queue/Lifetime/Closing.antt =====
-- The end of a queue (internal/queue/queue.go: Close, runSweeper; wal.go: Close): the stop channel is
-- closed, the sweeper is waited for, then the channel of requests is closed.
use gojobs.Prelude.{◌<◌, ◌≡◌, refl, sym, ap, ◌∙◌, Bool, true, false, length}
use gojobs.Prelude.Run.{ok}
use gojobs.Wal.Writer.{Wal}
use gojobs.Wal.Channel.{Request, Channel, open_channel, capacity, send, Move}
use gojobs.Wal.Channel.Answers.{sent, send-sent}

-- Where Close stands: not called, with the stop channel closed, past the wait group, past the close of
-- the log's channel.
pub data Closer : Type 0 where
  not_called stop_signalled waited log_closed : Closer

-- The writer's channel, q.stop, whether the goroutine of the sweeper runs, and Close.
pub record Life : Type 0 where
  pub channel : Channel
  pub stopping : Bool
  pub sweeping : Bool
  pub closer : Closer

unfoldable pub open_life : Wal → Life
unfolding open_channel
open_life w = record {
  channel = open_channel w;
  stopping = false;
  sweeping = true;
  closer = not_called;
}

-- A pass of the sweeper appends; another caller or the writer moves; the sweeper returns; Close goes on.
pub data LifeStep (s s' : Life) : Type 0 where
  sweeper_appends :
      (r : Request) (c : Channel)
      → s.sweeping ≡ true
      → length s.channel.waiting < capacity
      → send r s.channel ≡ ok c
      → s' ≡ record s { channel = c }
      → LifeStep s s'
  others_move :
      (c : Channel)
      → Move s.channel c
      → c.closed ≡ s.channel.closed
      → s' ≡ record s { channel = c }
      → LifeStep s s'
  sweeper_returns :
      s.sweeping ≡ true → s.stopping ≡ true → s' ≡ record s { sweeping = false } → LifeStep s s'
  close_signals :
      s.closer ≡ not_called
      → s' ≡ record s { stopping = true; closer = stop_signalled }
      → LifeStep s s'
  close_waits :
      s.closer ≡ stop_signalled
      → s.sweeping ≡ false
      → s' ≡ record s { closer = waited }
      → LifeStep s s'
  close_ends :
      s.closer ≡ waited
      → s' ≡ record s { channel = record (s.channel) { closed = true }; closer = log_closed }
      → LifeStep s s'

pub data LifeSteps (start : Life) : Life → Type 0 where
  here : LifeSteps start start
  next : {s s' : Life} → LifeSteps start s → LifeStep s s' → LifeSteps start s'

-- What holds where Close stands.
abbrev Stands : Closer → Life → Type 0
Stands not_called s = (s.sweeping ≡ true) × (s.stopping ≡ false) × (s.channel.closed ≡ false)
Stands stop_signalled s = (s.stopping ≡ true) × (s.channel.closed ≡ false)
Stands waited s = (s.stopping ≡ true) × (s.sweeping ≡ false) × (s.channel.closed ≡ false)
Stands log_closed s = (s.stopping ≡ true) × (s.sweeping ≡ false) × (s.channel.closed ≡ true)

Stands-channel :
    (k : Closer) (s : Life) (c : Channel)
    → c.closed ≡ s.channel.closed
    → Stands k s
    → Stands k (record s { channel = c })
Stands-channel not_called s c same h = (h.0, h.1, same ∙ h.2)
Stands-channel stop_signalled s c same h = (h.0, same ∙ h.1)
Stands-channel waited s c same h = (h.0, h.1, same ∙ h.2)
Stands-channel log_closed s c same h = (h.0, h.1, same ∙ h.2)

Stands-returned :
    (k : Closer) (s : Life)
    → s.sweeping ≡ true
    → s.stopping ≡ true
    → Stands k s
    → Stands k (record s { sweeping = false })
Stands-returned not_called s running stopping h = let off = h.1 in cc
Stands-returned stop_signalled s running stopping h = h
Stands-returned waited s running stopping h = (h.0, refl, h.2)
Stands-returned log_closed s running stopping h = (h.0, refl, h.2)

send-closed : (r : Request) (c c' : Channel) → send r c ≡ ok c' → c'.closed ≡ c.closed
send-closed r c c' e = let (opened, same) = send-sent r c c' e in ap (λ c. c.closed) (sym same)

LifeStep-Stands : {s s' : Life} → Stands s.closer s → LifeStep s s' → Stands s'.closer s'
LifeStep-Stands {s} h (sweeper_appends r c running room e f) =
    rw f (Stands-channel s.closer s c (send-closed r s.channel c e) h)
LifeStep-Stands {s} h (others_move c m same f) = rw f (Stands-channel s.closer s c same h)
LifeStep-Stands {s} h (sweeper_returns running stopping f) =
    rw f (Stands-returned s.closer s running stopping h)
LifeStep-Stands {s} h (close_signals stands f) = rw f (refl, (rw stands at h).2)
LifeStep-Stands {s} h (close_waits stands idle f) =
    rw f ((rw stands at h).0, idle, (rw stands at h).1)
LifeStep-Stands {s} h (close_ends stands f) = rw f ((rw stands at h).0, (rw stands at h).1, refl)

LifeSteps-Stands : (w : Wal) (s : Life) → LifeSteps (open_life w) s → Stands s.closer s
LifeSteps-Stands w s here = unfold open_life open_channel in (refl, refl, refl)
LifeSteps-Stands w s (next r m) = LifeStep-Stands (LifeSteps-Stands w _ r) m

open_at : (k : Closer) (s : Life) → s.sweeping ≡ true → Stands k s → s.channel.closed ≡ false
open_at not_called s running h = h.2
open_at stop_signalled s running h = h.1
open_at waited s running h = let off = h.1 in cc
open_at log_closed s running h = let off = h.1 in cc

idle_at : (k : Closer) (s : Life) → s.channel.closed ≡ true → Stands k s → s.sweeping ≡ false
idle_at not_called s closed h = let opened = h.2 in cc
idle_at stop_signalled s closed h = let opened = h.1 in cc
idle_at waited s closed h = h.1
idle_at log_closed s closed h = h.1

-- Whatever Close, the writer and the callers have done, none of the callers having closed the log's
-- channel: as long as the sweeper runs, its append does not panic; and once that channel is closed,
-- the sweeper has returned.
pub close-Orderly :
    (w : Wal) (s : Life) (r : Request)
    → LifeSteps (open_life w) s
    → (s.sweeping ≡ true → send r s.channel ≡ ok (sent r s.channel))
      × (s.channel.closed ≡ true → s.sweeping ≡ false)
unfolding send
close-Orderly w s r steps =
    let h = LifeSteps-Stands w s steps in
    (λ running. rw (open_at s.closer s running h) refl, λ closed. idle_at s.closer s closed h)
