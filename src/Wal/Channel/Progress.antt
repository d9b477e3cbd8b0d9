-- ===== src/Wal/Channel/Progress.antt =====
-- The writer can always answer what was submitted, while the channel is open (internal/queue/wal.go: run).
use gojobs.Prelude.{◌≡◌, false, Option, some, none, List, [], ◌∷◌}
use gojobs.Wal.Writer.{Wal}
use gojobs.Wal.Channel.{Request, Phase, ranging, draining, exited, Channel, Moves}

-- No nil among what was drained.
abbrev AllSent : List (Option Request) → Type 0
AllSent [] = Unit
AllSent (none ∷ rs) = ⊥
AllSent (some r ∷ rs) = AllSent rs

abbrev IsWhole : Phase → Type 0
IsWhole ranging = Unit
IsWhole (draining first drained) = AllSent drained
IsWhole exited = ⊥

abbrev OpenWhole : Channel → Type 0
OpenWhole c = c.closed ≡ false → IsWhole c.phase

-- Moves of the writer alone lead to a state where it is at the range and nothing waits.
record CanAnswer (c : Channel) : Type 0 where
  after : Channel
  moves : Moves c after
  ranges : after.phase ≡ ranging
  empty : after.waiting ≡ []
  submitted : after.submitted ≡ c.submitted
