-- ===== src/Database/Gate/Examples.antt =====
-- Tests of the gate, and its theorem at a query. No text is taken for a COPY ... PROGRAM.
use easyserver.Base.{◌≡◌, refl, ◌≢◌, ◌++◌, inl, inr, Bool, false, nat_eq, string_eq, codes}
use easyserver.Base.Bytes.{same, has_prefix, has_word}
use easyserver.Database.Statements.{
  Text, trim_from, trim_end, trim_right, trim_space, scan_byte, scan_step, scan, count_statements,
  strip_rounds, strip_leading_comments,
}
use easyserver.Database.Gate.{
  delete_without_where, reads_mysql, validate_single_statement, validate_sql,
}
use easyserver.Database.Gate.Accepted.{accepted_lacks}

program : Unit {0}
unfolding trim_from trim_end trim_right trim_space scan_byte scan_step scan count_statements
    strip_rounds strip_leading_comments has_prefix has_word validate_single_statement validate_sql
program = tt

abbrev never : Text → Bool
never s = false

abbrev query : Text
query = codes "select 1"

accepted : validate_sql never query ≡ inr query
unfolding program
accepted = refl

whole_table : validate_sql never (codes "-- all\ndelete from t") ≡ inl delete_without_where
unfolding program
whole_table = refl

system_table : validate_sql never (codes "select * from mysql.user") ≡ inl reads_mysql
unfolding program
system_table = refl

accepted_lacks_example :
    strip_leading_comments query ≢ codes "select " ++ codes "Sleep(" ++ codes "9)"
unfolding program
accepted_lacks_example =
    accepted_lacks never query query (codes "select ") (codes "SLEEP(") (codes "Sleep(")
      (codes "9)") accepted (unfold same in refl) refl
