-- ===== src/Tests/Sessions.antt =====
-- Whole sessions of a protocol context.
use protocom.Prelude.{
  ℕ, ◌+◌, ◌≡◌, ◌⊎◌, inl, inr, refl, true, false, List, [], ◌∷◌, ◌++◌, none, some, arith, length,
  replicate, returned,
}
use protocom.Frame.{Frame}
use protocom.Messages.{ClientAuthRequest}
use protocom.Coder.{borrowed, encrypted}
use protocom.Kex
use protocom.Kex.{Kex}
use protocom.Authenticator.{trust, password, UserTable}
use protocom.Protocol.State.{
  AuthenticationHandler, user, authentication, Ctx, Next, test_user_handler_factory,
}
use protocom.Protocol.Context.{ProtocolContext, new, set_io, settle, handle_frames, run_handler}
use protocom.Protocol.Context.Gate.{IsGuardedState}
use protocom.Protocol.Context.Gate.Frames.{handle_frames-Guarded}
use protocom.Protocol.Context.Attempts.{CanAnswer, IsRefused}
use protocom.Protocol.Context.Attempts.Lockout.{attempts-Closed}
use protocom.Protocol.Context.Attempts.Rerun.{undecodable-Left}
use protocom.Tests.Samples.{env}
use protocom.Tests.Codecs.{faithful}

abbrev pub fresh : Kex
fresh = Kex.new [] [] [] true

abbrev pub key : List ℕ
key = replicate 32 5

-- A sealed text: an initial vector, the text and a tag.
abbrev pub sealed : List ℕ → Frame
sealed bs = borrowed 0xF1 (length bs + 32) (replicate 16 0 ++ bs ++ replicate 16 5)

abbrev pub kex_frame : Frame
kex_frame = borrowed 0xF0 33 (1 ∷ replicate 32 5)

abbrev pub auth_frame : Frame
auth_frame = sealed (2 ∷ [])

-- The user "a" supplies no password.
abbrev pub supply_frame : Frame
supply_frame = sealed (1 ∷ 97 ∷ [])

abbrev session : List (Kex × Frame)
session = (fresh, kex_frame) ∷ (fresh, auth_frame) ∷ (fresh, supply_frame) ∷ []

abbrev pub users : UserTable
users = (97 ∷ [], trust ∷ []) ∷ (98 ∷ [], password (1 ∷ []) ∷ []) ∷ []

abbrev pub answered : ℕ → ℕ → Frame
answered block status = record {
  header = 0xF1;
  len = 33;
  msg = replicate 16 block ++ status ∷ replicate 16 5;
  has_dynamic_data = true;
}

-- The context that the session leaves.
abbrev pub logged_in : ProtocolContext ℕ
logged_in = record {
  ctx = record {
    io_set = true;
    final_state_factory = some test_user_handler_factory;
    authenticator = some users;
    entropy = 4;
    written =
        record { header = 0xF0; len = 1; msg = 1 ∷ []; has_dynamic_data = true }
        ∷ answered 2 1
        ∷ answered 3 1
        ∷ [];
  };
  state = some (
      user (record {
        coder = encrypted key;
        request = record { msg = [] };
        response = record { msg = [] };
      }));
}

logs_in :
    handle_frames env session (set_io true (new (some test_user_handler_factory) (some users) 0))
    ≡ returned logged_in
unfolding handle_frames protocom.Protocol.Context.handle_frame
    protocom.Protocol.Connected.handle_frame protocom.Coder.decode Kex.load_other_key_arr
    Kex.get_pub_key Kex.init Kex.agree Kex.get_key256 protocom.Coder.encode
    protocom.Protocol.Authentication.handle_frame protocom.Authenticator.authenticate
    protocom.Authenticator.find
logs_in = refl

abbrev Came : Frame → Type 0
Came f = (f ≡ kex_frame) ⊎ ((f ≡ auth_frame) ⊎ (f ≡ supply_frame))

handle_frames-Guarded_example : IsGuardedState env Came (some users) logged_in.state
handle_frames-Guarded_example =
    handle_frames-Guarded env Came (some users) (some test_user_handler_factory) 0 session logged_in
      (inl refl, (inr (inl refl), (inr (inr refl), tt))) logs_in

-- The user "b", whose password is not given.
abbrev pub refused_frame : Frame
refused_frame = sealed (1 ∷ 98 ∷ [])

abbrev refused_request : ClientAuthRequest
refused_request = record { request = 1; username = some (98 ∷ []); auth_credential = none }

not_let_in : protocom.Protocol.Authentication.admits (some users) refused_request ≡ false
unfolding protocom.Protocol.Authentication.admits protocom.Authenticator.authenticate
    protocom.Authenticator.find
not_let_in = refl

-- The same request under the codec without a loss.
abbrev spelled_frame : Frame
spelled_frame = sealed (0 ∷ 1 ∷ 2 ∷ 98 ∷ 0 ∷ [])

refused : IsRefused faithful key (some users) spelled_frame
unfolding protocom.Coder.decode
refused = record {
  request = refused_request;
  decodes = λ prev. refl;
  supplies = refl;
  not_admitted = not_let_in;
}

can : CanAnswer faithful key (some users)
unfolding protocom.Coder.encode
can status g small = (_, _, refl)

abbrev pub attempting : ℕ → AuthenticationHandler
attempting n = record {
  coder = encrypted key;
  request = refused_request;
  response = record { status = 0; server_info = none };
  remaining_attempts = n;
}

abbrev pub open_ctx : Ctx ℕ
open_ctx = record {
  io_set = true;
  final_state_factory = some test_user_handler_factory;
  authenticator = some users;
  entropy = 0;
  written = [];
}

abbrev tries : List (Kex × Frame)
tries = replicate 6 (fresh, spelled_frame)

attempts-Closed_example :
    (c : ProtocolContext ℕ) × (handle_frames faithful tries
        (record { ctx = open_ctx; state = some (authentication (attempting 5)) })
      ≡ returned c)
    × (length c.ctx.written ≡ 0 + 6)
    × (c.state ≡ none)
attempts-Closed_example =
    attempts-Closed faithful key (some users) can 5 tries (attempting 5) open_ctx refl refl refl
      refl refl (refused, (refused, (refused, (refused, (refused, (refused, tt))))))

undecodable-Left_example :
    (r : Next × Ctx ℕ) × (run_handler faithful fresh kex_frame
        (authentication (attempting 5))
        open_ctx
      ≡ returned r)
    × (length (settle r).ctx.written ≡ 0 + 2)
    × ((h' : AuthenticationHandler) × ((settle r).state ≡ some (authentication h'))
        × (h'.remaining_attempts ≡ 4))
undecodable-Left_example =
    undecodable-Left faithful key (some users) can 4 fresh kex_frame (attempting 5) open_ctx refl
      refl refl refl refl not_let_in (λ e. omega arith)
