-- ===== src/Web/Bans/Examples.antt =====
-- Concrete bans.
use easyserver.Base.{
  ℕ, ◌≡◌, refl, true, false, none, some, List, [], ◌∷◌, if◌then◌else◌, ◌==◌, nat_eq, codes, length,
}
use easyserver.Base.Bytes.{bytes_eq, same, has_prefix}
use easyserver.Database.Statements.{Text}
use easyserver.Web.Bans.{Firewall, Faults, World, delete_rules, ban_ip, unban_ip}
use easyserver.Web.Bans.Serving.{times, Serves, ban_ip-Serves}

-- A firewall that is the list of its rules.
abbrev Rules : Type 0
Rules = List (ℕ × Text × Text)

abbrev without : ℕ → Rules → Rules
without id [] = []
without id (r ∷ rules) = let rest = without id rules in if r.0 == id then rest else r ∷ rest

abbrev list_firewall : Firewall Rules
list_firewall = record {
  create_rule = λ ip remark rules. ((length rules, ip, remark) ∷ rules, true);
  list_rules = λ rules. some rules;
  delete_rule = without;
}

abbrev no_faults : Faults
no_faults = record {
  list_fails = false;
  add_fails = false;
  reread_fails = false;
  remove_fails = false;
  write_fails = false;
  test_fails = false;
  reload_fails = false;
}

abbrev start : World Rules
start = record { bans = []; next_id = 1; fw = []; file = []; loaded = [] }

abbrev address : Text
address = codes "9.8.7.6"

-- A ban for one site, and then one for all.
abbrev banned : World Rules
banned =
    (ban_ip list_firewall 100 101 no_faults (some 4) address (codes "scan") (codes "auto") 60
      start).0

abbrev twice : World Rules
twice =
    (ban_ip list_firewall 110 110 no_faults none address (codes "scan") (codes "manual") 0 banned).0

twice_rules : length twice.fw ≡ 2
twice_rules = refl

-- The ban of the site is lifted: the firewall lets the address in, which is still banned.
lifted_rules : (unban_ip list_firewall 120 no_faults 1 twice).0.fw ≡ []
unfolding same has_prefix delete_rules
lifted_rules = refl

lifted_file : (unban_ip list_firewall 120 no_faults 1 twice).0.loaded ≡ address ∷ []
lifted_file = refl

ban_ip-Serves_example : (times address banned.loaded ≡ 1) × Serves 101 banned
ban_ip-Serves_example =
    ban_ip-Serves list_firewall 100 101 no_faults (some 4) address (codes "scan") (codes "auto") 60
      start refl refl
