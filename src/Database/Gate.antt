-- ===== src/Database/Gate.antt =====
-- `ValidateSQL` and `validateSingleStatement` of internal/domain/database/validation.go. The
-- regular expression for COPY ... PROGRAM is the argument `copies`; `strings.ToUpper` is that of
-- ASCII.
pub mod Accepted
mod Examples
use easyserver.Base.{
  Result-cases, ℕ, zero, suc, ◌+◌, ◌-◌, ◌*◌, ◌/◌, ◌%◌, ◌≤◌, ◌<◌, min, String, ◌≡◌, refl, sym, ap,
  ◌∙◌, subst, ◌≢◌, ◌↔◌, ◌⊎◌, inl, inr, Bool, true, false, not, ◌&&◌, ◌||◌, Option, none, some, List,
  [], ◌∷◌, ◌++◌, map, arith, ltb, leb, leb→le, if◌then◌else◌, Bool-cases, Option-cases, Eq, ◌==◌,
  nat_eq, string_eq, nat_test, nat_test_iff, ℤ, pos, negsuc, codes, length, take, drop, keep, All,
  length-append, length-drop, Result, ok, err, ◌>>=◌, Kind, AppError, new_sentinel, plain_error,
  bad_request, unauthorized, forbidden, not_found, conflict, rate_limit, internal,
}
use easyserver.Base.Bytes.{has_prefix, has_word}
use easyserver.Database.Statements.{
  Text, is_nil, trim_space, count_statements, strip_leading_comments,
}

-- The message of a refusal.
pub data Refusal : Type 0 where
  empty many_statements delete_without_where update_without_where changes_password : Refusal
  copies_program sleeps writes_files reads_schema reads_mysql reads_catalog has_comment : Refusal

abbrev pub upper : ℕ → ℕ
upper c = if leb 97 c && leb c 122 then c - 32 else c

abbrev pub lacks_where : Text → Text → Bool
lacks_where keyword up = has_prefix up keyword && not (has_word up (codes " WHERE "))

module _ (copies : Text → Bool) where
  unfoldable pub validate_single_statement : Text → Option Refusal
  validate_single_statement sql =
      let up = map upper sql in
      if lacks_where (codes "DELETE") up
      then some delete_without_where
      else if lacks_where (codes "UPDATE") up
      then some update_without_where
      else if has_word up (codes "SET PASSWORD")
          || has_word up (codes "IDENTIFIED BY")
          || has_word up (codes "IDENTIFIED WITH")
      then some changes_password
      else if copies up
      then some copies_program
      else if has_word up (codes "SLEEP(") || has_word up (codes "BENCHMARK(")
      then some sleeps
      else if has_word up (codes "INTO OUTFILE") || has_word up (codes "INTO DUMPFILE")
      then some writes_files
      else if has_word up (codes "INFORMATION_SCHEMA")
      then some reads_schema
      else if has_word up (codes "MYSQL.")
      then some reads_mysql
      else if has_word up (codes "PG_") || has_word up (codes "PGCATALOG")
      then some reads_catalog
      else if has_word sql (codes "/*") || has_word sql (codes "*/")
      then some has_comment
      else none

  -- The refusal, or the statement that is accepted, without white space around it.
  unfoldable pub validate_sql : Text → Refusal ⊎ Text
  unfolding validate_single_statement
  validate_sql raw =
      let sql = trim_space raw in
      if is_nil sql
      then inl empty
      else if not (count_statements sql)
      then inl many_statements
      else if is_nil (strip_leading_comments sql)
      then inl empty
      else elim (validate_single_statement (strip_leading_comments sql)) [
        | some why ↦ inl why
        | none ↦ inr sql
      ]
