-- ===== src/Firewall/PortAcl/Examples.antt =====
-- A kernel that never fails, and a port that is exposed twice.
use easyserver.Base.{
  ℕ, ◌≡◌, refl, sym, ap, inr, Bool, true, false, Option, none, some, List, [], ◌∷◌, ◌++◌, nat_eq,
  string_eq, nat_test, codes,
}
use easyserver.Base.Bytes.{bytes_eq, same, has_prefix}
use easyserver.Database.Statements.{Text, trim_from, trim_end, trim_right, trim_space}
use easyserver.Firewall.PortAcl.{
  Rule, Nft, PortAcl, Store, decimal, handle_of, digits, find_row, upsert, is_seen, normalize_from,
  normalize_cidrs, clean_protocol, add_all, apply, expose, accept_rule, drop_rule, acl_rules,
}
use easyserver.Firewall.PortAcl.Verdicts.{Packet, decide, or_later, any_covers, admits}
use easyserver.Firewall.PortAcl.Exposing.{expose_decides, expose_again}

abbrev demo_nft : Nft (List Rule)
demo_nft = record {
  list_table = λ k. true;
  add_table = λ k. some k;
  add_chain = λ k. some k;
  add_rule = λ r k. some (k ++ r ∷ []);
  list_chain = λ k. none;
  delete_rule = λ h k. some k;
  rules = λ k. k;
  add_table_lem = λ k j h. ap (λ o. or_else k o) (sym h);
  add_chain_lem = λ k j h. ap (λ o. or_else k o) (sym h);
  add_rule_lem = λ r k j h. ap (λ o. or_else k o) (sym h);
}
  where
    or_else : List Rule → Option (List Rule) → List Rule
    or_else k none = k
    or_else k (some j) = j

program : Unit {0}
unfolding same trim_from trim_end trim_right trim_space decimal find_row upsert is_seen
    normalize_from normalize_cidrs add_all apply expose accept_rule drop_rule decide any_covers
program = tt

abbrev yes : Text → Bool
yes c = true

abbrev no_rows : Store
no_rows = record { rows = []; last_id = 0 }

abbrev home : List Text
home = codes "10.0.0.1/32" ∷ []

abbrev office : List Text
office = codes "10.0.0.2/32" ∷ []

abbrev row_of : List Text → PortAcl
row_of cidrs = record { id = 1; port = 22; protocol = codes "tcp"; cidrs = cidrs; remark = [] }

abbrev store_of : List Text → Store
store_of cidrs = record { rows = row_of cidrs ∷ []; last_id = 1 }

abbrev only : ℕ → Text → ℕ → Bool
only a c source = nat_test source a

abbrev ssh : Packet
ssh = record { protocol = codes "tcp"; dport = 22; source = 1 }

clean_home : normalize_cidrs yes yes home ≡ inr home
unfolding program
clean_home = refl

clean_office : normalize_cidrs yes yes office ≡ inr office
unfolding program
clean_office = refl

first_call :
    expose demo_nft yes yes 22 (codes " TCP") home [] false no_rows []
    ≡ ((store_of home, acl_rules (row_of home)), none)
unfolding program
first_call = refl

second_call :
    expose demo_nft yes yes 22
      (codes " TCP")
      office
      []
      false
      (store_of home)
      (acl_rules (row_of home))
    ≡ ((store_of office, acl_rules (row_of home) ++ acl_rules (row_of office)), none)
unfolding program
second_call = refl

right_protocol : ssh.protocol ≡ clean_protocol (codes " TCP")
unfolding program
right_protocol = refl

expose_decides_example :
    decide (only 1) (acl_rules (row_of home)) ssh
    ≡ or_later (decide (only 1) [] ssh) (some (admits (only 1) home ssh))
expose_decides_example =
    expose_decides demo_nft yes yes (only 1) 22 (codes " TCP") home home [] false no_rows
      (store_of home) [] (acl_rules (row_of home)) ssh clean_home first_call right_protocol refl

expose_again_example :
    decide (only 1) (acl_rules (row_of home) ++ acl_rules (row_of office)) ssh
    ≡ decide (only 1) (acl_rules (row_of home)) ssh
expose_again_example =
    expose_again demo_nft yes yes (only 1) 22 (codes " TCP") home home office office [] [] no_rows
      (store_of home) (store_of office) [] (acl_rules (row_of home))
      (acl_rules (row_of home) ++ acl_rules (row_of office)) ssh clean_home first_call clean_office
      second_call right_protocol refl

handle_found : handle_of (codes "drop # handle 12") ≡ some (codes "12")
unfolding handle_of digits has_prefix same
handle_found = refl
