-- ===== src/Tests/Members.antt =====
-- The accounts of a dashboard with one owner and a guest, at concrete requests.
use codasaurus.Accounts
use codasaurus.Accounts.{User, Session, Invite, Db, get_session, owner_count}
use codasaurus.Accounts.Handlers
use codasaurus.Accounts.Handlers.{Machine, Request, State, session_email, extract_token}
use codasaurus.Accounts.Sound.{IsSound}
use codasaurus.Accounts.Traces.{
  Call, log_in, invite, give_role, remove, pass_on, join, step, run, run-IsSound, run-founded,
}
use codasaurus.Accounts.Managed.{FromOwner, step-FromOwner}
use codasaurus.Prelude.{
  ℕ, ◌<◌, Text, codes, text_eq, to_ascii_lowercase, List, [], ◌∷◌, ◌++◌, map, none, some, Bool,
  true, false, length, ◌≡◌, refl, ◌⊎◌, arith,
}

abbrev ann : User
ann = record {
  id = 1;
  email = codes "ann@acme.io";
  password_hash = codes "#a long password";
  role = "owner";
  auth_provider = "local";
  is_bootstrap = true;
  created_at = 0;
}

abbrev bob : User
bob = record {
  id = 2;
  email = codes "bob@acme.io";
  password_hash = [];
  role = "viewer";
  auth_provider = "oidc";
  is_bootstrap = false;
  created_at = 5;
}

abbrev hall : State
hall = record {
  db = record {
    users = ann ∷ bob ∷ [];
    next_user = 3;
    sessions =
        record { token = codes "s"; email = codes "bob@acme.io"; created_at = 5; expires_at = 900 }
        ∷ [];
    invites = [];
    next_invite = 1;
  };
  attempts = [];
}

-- The hash of a password is the password behind a sign, the hash of a token the token.
abbrev machine : ℕ → Text → Machine
machine now token = record {
  sha256_hex = λ x. x;
  hash_password = λ x. b'#' ∷ x;
  matches_hash = λ h x. text_eq h (b'#' ∷ x);
  dummy_hash = codes "#";
  byte_len = length;
  to_lowercase = to_ascii_lowercase;
  now = now;
  random_token = token;
}

abbrev sent_with : Text → Request
sent_with token = record {
  cookie = some (codes "codasaurus_session=" ++ token);
  client_ip = codes "1.2.3.4";
}

abbrev calls : List Call
calls =
    (
      machine 10 (codes "t1"),
      (sent_with [], log_in (codes "ann@acme.io") (codes "a long password")),
    )
    ∷ (machine 11 (codes "t2"), (sent_with (codes "t1"), give_role 2 "owner"))
    ∷ (machine 12 (codes "t3"), (sent_with (codes "t1"), pass_on 2))
    ∷ (machine 13 (codes "t4"), (sent_with (codes "t1"), remove 2))
    ∷ (
      machine 14 (codes "t5"),
      (sent_with (codes "t1"), invite (some (codes "Cy@acme.io")) "viewer"),
    )
    ∷ (machine 15 (codes "t6"), (sent_with [], join (codes "t5") none (codes "ten letters")))
    ∷ (machine 16 (codes "t7"), (sent_with (codes "s"), remove 1))
    ∷ []

hall-IsSound : IsSound hall.db
hall-IsSound = record {
  ids = ((λ e. absurd (omega arith), tt), (tt, tt));
  fresh = (omega arith, (omega arith, tt));
  flag = refl;
  superuser = (refl, (refl, tt));
  signed = (refl, tt);
}

-- The flag was passed on, the new holder could not be removed, and removed the old one.
abbrev left : Db → List (Text × Bool)
left db = map (λ (u : User). (u.email, u.is_bootstrap)) db.users

calls_leave :
    left (run calls hall).db ≡ (codes "bob@acme.io", true) ∷ (codes "cy@acme.io", false) ∷ []
unfolding run step Handlers.login Handlers.check_auth_rate_limit Handlers.owner_of extract_token
    Handlers.update_user Handlers.transfer_bootstrap_handler Handlers.remove_user
    Handlers.create_invite_handler Handlers.accept_invite Accounts.transfer_bootstrap
    Accounts.update_user_role Accounts.delete_user Accounts.delete_sessions_for_email
    Accounts.create_invite Accounts.create_session Accounts.verify_password Accounts.get_session
    Accounts.get_pending_by_token Accounts.accept_local Accounts.claim_invite Accounts.insert_user
    Accounts.validate_password_policy codasaurus.Rbac.require_owner codasaurus.Rbac.role_rank
    codasaurus.Rbac.normalize_role codasaurus.Rbac.rank
calls_leave = refl

run-IsSound_example : IsSound (run calls hall).db
run-IsSound_example = run-IsSound calls hall hall-IsSound

abbrev day_zero : Machine
day_zero = machine 1 (codes "t0")

run-founded_example :
    IsSound
      (run calls (record {
        db =
            (Handlers.setup_admin day_zero
              (sent_with [])
              (codes "ann@acme.io")
              (codes "a long password")
              Accounts.no_accounts).1;
        attempts = [];
      })).db
    × (0
        < owner_count
            (run calls (record {
              db =
                  (Handlers.setup_admin day_zero
                    (sent_with [])
                    (codes "ann@acme.io")
                    (codes "a long password")
                    Accounts.no_accounts).1;
              attempts = [];
            })).db)
unfolding Handlers.setup_admin Accounts.validate_password_policy Accounts.create_bootstrap_owner
    Accounts.insert_user
run-founded_example =
    run-founded day_zero (sent_with []) (codes "ann@acme.io") (codes "a long password") calls refl

step-FromOwner_example :
    (step (machine 10 (codes "t"), (sent_with (codes "s"), remove 1)) hall ≡ hall)
    ⊎ FromOwner (machine 10 (codes "t")) (sent_with (codes "s")) hall.db
step-FromOwner_example =
    step-FromOwner (machine 10 (codes "t")) (sent_with (codes "s")) (remove 1) hall refl
