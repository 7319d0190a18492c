-- ===== src/Session/Direct.antt =====
-- The shortest link: each frame goes to the context whole and in order, and what the context writes
-- is held until the client reads it.
use protocom.Prelude.{
  ◌≡◌, refl, ap, ◌∙◌, Bool, true, false, List, [], ◌∷◌, ◌++◌, Option, none, some, Outcome, returned,
  threw,
}
use protocom.Frame
use protocom.Frame.{Frame}
use protocom.Kex.{Kex}
use protocom.Authenticator.{UserTable}
use protocom.Protocol.State.{Env, Handler, Factory}
use protocom.Protocol.Context
use protocom.Protocol.Context.{ProtocolContext, set_io, handle_frame}
use protocom.Server.Worker.{load}
use protocom.Client.State.{FrameIo}
use protocom.Session.{Link, idle, answered}

-- The context, and the frames on their way to the client, oldest first.
pub record Peer (G : Type 0) : Type 0 where
  pub server : ProtocolContext G
  pub inbox : List Frame

-- A context in a state, with nothing on its way.
abbrev pub peer : {G : Type 0} → Option Factory → Option UserTable → G → Option Handler → Peer G
peer factory auth h state = record { server = idle factory auth h state; inbox = [] }

-- A context that the server's worker has created, at its first frame.
abbrev pub new_peer : {G : Type 0} → Option Factory → Option UserTable → G → Peer G
new_peer factory auth h = record {
  server = load auth h (set_io true (Context.new factory none h));
  inbox = [];
}

module _ {G : Type 0} where
  -- What the context wrote goes on its way. A context that threw is gone.
  unfoldable pub deliver : Outcome (ProtocolContext G) → Peer G → Peer G
  deliver threw p = record p { server = record p.server { state = none } }
  deliver (returned s) p = record {
    server = record s { ctx = record s.ctx { written = [] } };
    inbox = p.inbox ++ s.ctx.written;
  }

  -- The read of an empty link fails.
  unfoldable pub take_in : List Frame → Peer G → Bool × (Frame × Peer G)
  take_in [] p = (false, (Frame.new, p))
  take_in (f ∷ fs) p = (true, (f, record p { inbox = fs }))

module _ {G : Type 0} (env : Env G) (fresh : Kex) (factory : Option Factory)
    (auth : Option UserTable) where
  abbrev pub direct_io : FrameIo (Peer G)
  direct_io = record {
    read_frame = λ f p. returned (take_in p.inbox p);
    write_frame =
        λ f p. returned (true, deliver (handle_frame env fresh (Frame.copy f) p.server) p);
    is_eof = λ p. false;
  }

  pub write-direct :
      (state : Option Handler) (h : Handler) (g g' : G) (f r : Frame) (p : Peer G)
      → p ≡ peer factory auth g (some h)
      → handle_frame env fresh (Frame.copy f) (idle factory auth g (some h))
        ≡ returned (answered (idle factory auth g' state) (Frame.copy r))
      → deliver (handle_frame env fresh (Frame.copy f) p.server) p
        ≡ record { server = idle factory auth g' state; inbox = Frame.copy r ∷ [] }
  unfolding deliver
  write-direct state h g g' f r p here handled =
      ap (λ (q : Peer G). deliver (handle_frame env fresh (Frame.copy f) q.server) q) here
      ∙ ap (λ o. deliver o (peer factory auth g (some h))) handled

  unfoldable pub direct : Link env fresh factory auth (Peer G)
  unfolding take_in
  direct = record {
    io = direct_io;
    At = λ g state inbox p. p ≡ record { server = idle factory auth g state; inbox = inbox };
    Keeps = λ state. Unit {0};
    keeps_handler = λ h. tt;
    replies = λ h state g g' f r p kept here handled.
        let there = write-direct state h g g' f r p here handled in
        (_, ap (λ (q : Peer G). returned (true, q)) there, refl);
    reads = λ g state f r p here. (_, ap (λ (q : Peer G). returned (take_in q.inbox q)) here, refl);
  }
