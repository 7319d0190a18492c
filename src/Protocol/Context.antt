-- ===== src/Protocol/Context.antt =====
-- ProtocolContext.cpp: the current state, and the frames that come to it.
pub mod Answers
pub mod Gate
pub mod Attempts
pub mod Written
use protocom.Prelude.{
  ℕ, Bool, true, false, List, [], ◌∷◌, Option, none, some, Outcome, returned, threw, ◌>>=◌,
}
use protocom.Frame.{Frame}
use protocom.Kex.{Kex}
use protocom.Authenticator.{UserTable}
use protocom.Protocol.State.{
  Env, Handler, connected, authentication, user, Factory, Ctx, Next, stays, set_state,
}
use protocom.Protocol.Connected
use protocom.Protocol.Authentication
use protocom.Protocol.User

pub record ProtocolContext (G : Type 0) : Type 0 where
  pub ctx : Ctx G
  pub state : Option Handler

module _ {G : Type 0} where
  -- The constructor, with the server's authenticator and the random pools.
  abbrev pub new : Option Factory → Option UserTable → G → ProtocolContext G
  new factory auth g = record {
    ctx = record {
      io_set = false;
      final_state_factory = factory;
      authenticator = auth;
      entropy = g;
      written = [];
    };
    state = some (connected Connected.new);
  }

  abbrev pub set_io : Bool → ProtocolContext G → ProtocolContext G
  set_io b c = record c { ctx = record c.ctx { io_set = b } }

  unfoldable pub is_active : ProtocolContext G → Bool
  is_active c = elim c.state [ none ↦ false | some _ ↦ true ]

  -- setState, or the handler as it stays.
  unfoldable pub settle : Next × Ctx G → ProtocolContext G
  settle (stays h, ctx) = record { ctx = ctx; state = some h }
  settle (set_state s, ctx) = record { ctx = ctx; state = s }

module _ {G : Type 0} (env : Env G) where
  -- The virtual call of handleFrame.
  unfoldable pub run_handler : Kex → Frame → Handler → Ctx G → Outcome (Next × Ctx G)
  run_handler fresh f (connected h) ctx = Connected.handle_frame env fresh f h ctx
  run_handler fresh f (authentication h) ctx = Authentication.handle_frame env f h ctx
  run_handler fresh f (user h) ctx = User.handle_frame env f h ctx

  unfoldable pub handle_in : Kex → Frame → Option Handler → Ctx G → Outcome (ProtocolContext G)
  unfolding run_handler settle
  handle_in fresh f none ctx = returned (record { ctx = ctx; state = none })
  handle_in fresh f (some h) ctx = do r ← run_handler fresh f h ctx; returned (settle r)

  unfoldable pub handle_frame : Kex → Frame → ProtocolContext G → Outcome (ProtocolContext G)
  unfolding handle_in
  handle_frame fresh f c = handle_in fresh f c.state c.ctx

  -- A connection's frames one after the other, each with the memory that a key exchange would find.
  unfoldable pub handle_frames :
      List (Kex × Frame) → ProtocolContext G → Outcome (ProtocolContext G)
  handle_frames [] c = returned c
  handle_frames ((fresh, f) ∷ fs) c = do c' ← handle_frame fresh f c; handle_frames fs c'
