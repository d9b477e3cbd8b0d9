-- ===== src/Wal/Channel/Closing.antt =====
-- Close while a batch is being collected (internal/queue/wal.go: Close, run).
use gojobs.Prelude.{◌≡◌, refl, true, Option, some, none, List, [], ◌∷◌, ◌++◌}
use gojobs.Prelude.Run.{Error, ok, panic}
use gojobs.Wal.Channel.{
  Request, draining, Channel, send, Move, submits, closes, wakes, drains, drains_nil, commits,
  exits, Moves, here, next,
}

-- The writer is in its drain loop, the channel is closed, and these are the replies.
pub record IsStuck (replied : List (Request × Option Error)) (c : Channel) : Type 0 where
  pub closed : c.closed ≡ true
  pub first : Request
  pub drained : List (Option Request)
  pub phase : c.phase ≡ draining first drained
  pub replies : c.replied ≡ replied

send_closed : (r : Request) (c c' : Channel) → c.closed ≡ true → send r c ≡ ok c' → ⊥
unfolding send
send_closed r c c' closed e = let fails : panic ≡ ok c' = rw closed at e in cc

Move-IsStuck :
    {replied : List (Request × Option Error)} {c c' : Channel}
    → IsStuck replied c
    → Move c c'
    → IsStuck replied c'
Move-IsStuck s (submits r room e) = absurd (send_closed r _ _ s.closed e)
Move-IsStuck s (closes opened e) = let p = s.closed in cc
Move-IsStuck s (wakes r rest at w e) = let p = s.phase in cc
Move-IsStuck s (drains first r drained rest at w e) = rw e (record {
  closed = s.closed;
  first = first;
  drained = drained ++ some r ∷ [];
  phase = refl;
  replies = s.replies;
})
Move-IsStuck s (drains_nil first drained at w x e) = rw e (record {
  closed = s.closed;
  first = first;
  drained = drained ++ none ∷ [];
  phase = refl;
  replies = s.replies;
})
Move-IsStuck s (commits first drained rs writes syncs at w opened d e) = let p = s.closed in cc
Move-IsStuck s (exits at w x e) = let p = s.phase in cc

-- If Close closes the channel while the writer is in its drain loop, the writer never leaves the
-- loop: it answers no request any more and does not return, whatever happens.
pub close-IsStuck :
    (c c' : Channel) (first : Request) (drained : List (Option Request))
    → c.phase ≡ draining first drained
    → Moves (record c { closed = true }) c'
    → IsStuck c.replied c'
close-IsStuck c c' first drained e here = record {
  closed = refl;
  first = first;
  drained = drained;
  phase = e;
  replies = refl;
}
close-IsStuck c c' first drained e (next r m) = Move-IsStuck (close-IsStuck c _ first drained e r) m
