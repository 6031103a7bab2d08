-- ===== src/Database/Literals.antt =====
-- internal/domain/database/sql_builder.go: how values and names are written into SQL. Texts are lists
-- of bytes.
pub mod Reading
pub mod Servers
mod Examples
use easyserver.Base.{
  test_refl, ℕ, zero, suc, ◌+◌, ◌-◌, ◌*◌, ◌^◌, ◌≤◌, ◌<◌, ◌≡◌, refl, sym, ap, ◌∙◌, subst, ◌≢◌, ◌↔◌,
  ◌⊎◌, inl, inr, Bool, true, false, not, ◌&&◌, ◌||◌, Option, none, some, List, [], ◌∷◌, ◌++◌, map,
  arith, nat_test, nat_test_iff, ltb, leb, leb→le, if◌then◌else◌, Bool-cases, Option-cases, Eq,
  ◌==◌, nat_eq, ℤ, pos, negsuc, codes, length, All,
}
use easyserver.Base.Bytes.{bytes_eq}
use easyserver.Database.Statements.{Text}

pub data DbType : Type 0 where
  mysql postgresql redis : DbType

-- `strings.ReplaceAll` of one byte.
abbrev pub replace_all : ℕ → Text → Text → Text
replace_all old new [] = []
replace_all old new (c ∷ s) =
    let rest = replace_all old new s in if c == old then new ++ rest else c ∷ rest

abbrev pub replace_each : List (ℕ × Text) → Text → Text
replace_each [] s = s
replace_each ((old, new) ∷ ps) s = replace_each ps (replace_all old new s)

-- What `EscapeString` replaces for MySQL, in its order.
abbrev pub mysql_escapes : List (ℕ × Text)
mysql_escapes =
    (92, 92 ∷ 92 ∷ [])
    ∷ (39, 92 ∷ 39 ∷ [])
    ∷ (34, 92 ∷ 34 ∷ [])
    ∷ (10, 92 ∷ 110 ∷ [])
    ∷ (13, 92 ∷ 114 ∷ [])
    ∷ (9, 92 ∷ 116 ∷ [])
    ∷ (0, 92 ∷ 48 ∷ [])
    ∷ []

abbrev pub escapes_of : DbType → List (ℕ × Text)
escapes_of mysql = mysql_escapes
escapes_of postgresql = (39, 39 ∷ 39 ∷ []) ∷ []
escapes_of redis = []

-- `EscapeString`.
abbrev pub escape_string : DbType → Text → Text
escape_string db s = replace_each (escapes_of db) s

-- `QuoteIdentifier`.
abbrev pub quote_identifier : DbType → Text → Text
quote_identifier mysql name = 96 ∷ replace_all 96 (96 ∷ 96 ∷ []) name ++ 96 ∷ []
quote_identifier postgresql name = 34 ∷ replace_all 34 (34 ∷ 34 ∷ []) name ++ 34 ∷ []
quote_identifier redis name = name

-- A value of the driver, as far as it is written as itself.
pub data Value : Type 0 where
  null : Value
  text : Text → Value
  -- A number, as `%v` writes it.
  number : Text → Value
  boolean : Bool → Value

-- `formatValue`.
abbrev pub format_value : DbType → Value → Text
format_value db null = codes "NULL"
format_value db (text s) = 39 ∷ escape_string db s ++ 39 ∷ []
format_value db (number n) = n
format_value mysql (boolean b) = if b then codes "1" else codes "0"
format_value postgresql (boolean b) = if b then codes "true" else codes "false"
format_value redis (boolean b) = if b then codes "true" else codes "false"
