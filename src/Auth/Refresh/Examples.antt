-- ===== src/Auth/Refresh/Examples.antt =====
-- Tests of the refresh tokens, and the theorems at a table of two chains. The hash is the identity.
use easyserver.Base.{
  String, ◌≡◌, ◌≢◌, refl, inr, none, arith, string_eq, nat_eq, true, false, List, [], ◌∷◌,
}
use easyserver.Auth.Refresh.{
  Row, Db, Faults, Statement, Outcome, issued, refused, replayed, device_mismatch, database,
  find_hash, find_device, rotate, issue, insert_row, mark_rotated, revoke_chain, revoke_family,
}
use easyserver.Auth.Refresh.Table.{IsValid}
use easyserver.Auth.Refresh.Rotation.{new_pair}
use easyserver.Auth.Refresh.Replay.{Accepts, no_faults, rotate_atomic}
use easyserver.Auth.Refresh.Afterwards.{Call, run_calls}
use easyserver.Auth.Refresh.Revocation.{rotate_twice}
use easyserver.Auth.Refresh.Invariant.{IsSingle}
use easyserver.Auth.Refresh.Reach.{Step, Reach, Reach-IsSingle}

abbrev plain : String → String
plain s = s

abbrev phone_row : Row
phone_row = record {
  id = 0;
  token_hash = "p0";
  family_id = "f1";
  user_id = 1;
  device_id = "d1";
  expires_at = 1000;
  rotated_from = none;
  rotated_at = none;
  revoked_at = none;
}

abbrev tablet_row : Row
tablet_row = record {
  id = 1;
  token_hash = "q0";
  family_id = "f2";
  user_id = 1;
  device_id = "d2";
  expires_at = 1000;
  rotated_from = none;
  rotated_at = none;
  revoked_at = none;
}

abbrev two_chains : Db
two_chains = record { rows = tablet_row ∷ phone_row ∷ []; next_id = 2 }

two_chains-IsValid : IsValid two_chains
unfolding find_hash
two_chains-IsValid = record { below = omega arith; distinct = (refl, (refl, tt)) }

abbrev empty : Db
empty = record { rows = []; next_id = 0 }

empty-IsSingle : IsSingle empty
empty-IsSingle = record {
  valid = record { below = tt; distinct = tt };
  single = λ family. omega arith;
}

program : Unit {0}
unfolding rotate find_hash find_device insert_row mark_rotated revoke_chain issue revoke_family
program = tt

abbrev first_use : Db × Outcome
first_use = rotate plain no_faults 10 "p1" "p0" "d1" two_chains

rotates_once : first_use.1 ≡ issued (new_pair 10 "p1")
unfolding program
rotates_once = refl

second_use : (rotate plain no_faults 20 "p2" "p0" "d1" first_use.0).1 ≡ refused replayed
unfolding program
second_use = refl

other_device : (rotate plain no_faults 10 "p1" "p0" "d2" two_chains).1 ≡ refused device_mismatch
unfolding program
other_device = refl

abbrev commit_fails : Faults
commit_fails Statement.commits = true
commit_fails _ = false

commit_lost : (rotate plain commit_fails 10 "p1" "p0" "d1" two_chains).1 ≡ refused database
unfolding program
commit_lost = refl

rotate_atomic_example : (rotate plain commit_fails 10 "p1" "p0" "d1" two_chains).0 ≡ two_chains
rotate_atomic_example =
    rotate_atomic plain commit_fails 10 "p1" "p0" "d1" two_chains database two_chains-IsValid
      commit_lost (λ e. cc)

phone-Accepts : Accepts plain 10 "p0" "d1" two_chains phone_row
unfolding find_hash
phone-Accepts = record { found = refl; unrevoked = refl; unexpired = omega arith; fits = inr refl }

-- Between the replay and the last exchange a login on another device and a cleanup.
abbrev other_calls : List Call
other_calls = Call.issues no_faults 22 "r0" "f3" 2 "d3" ∷ Call.cleans 25 ∷ []

rotate_twice_example :
    let (db₂, answer) = rotate plain no_faults 20 "p2" "p0" "d1" first_use.0 in
    (answer ≡ refused replayed)
    × ((rotate plain no_faults 30 "p3" "p1" "d1" (run_calls plain other_calls db₂)).1
        ≢ issued (new_pair 30 "p3"))
unfolding find_hash
rotate_twice_example =
    rotate_twice plain no_faults 10 20 "p1" "p2" "p0" "d1" "d1" two_chains phone_row
      (new_pair 10 "p1") other_calls no_faults 30 "p3" "d1" (new_pair 30 "p3") two_chains-IsValid
      refl rotates_once (omega arith) (inr refl)
      ((λ e. ground (arith, (string_eq.test_iff "r0" "p1").1 e)), (tt, tt))

abbrev after_login : Db
after_login = (issue plain no_faults 5 "p0" "f1" 1 "d1" empty).0

history : Reach plain empty (rotate plain no_faults 10 "p1" "p0" "d1" after_login).0
history =
    Reach.next (Reach.next Reach.here (Step.issues no_faults 5 "p0" "f1" 1 "d1" empty refl))
      (Step.rotates no_faults 10 "p1" "p0" "d1" after_login)

Reach-IsSingle_example : IsSingle (rotate plain no_faults 10 "p1" "p0" "d1" after_login).0
Reach-IsSingle_example = Reach-IsSingle empty-IsSingle history
