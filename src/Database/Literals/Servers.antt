-- ===== src/Database/Literals/Servers.antt =====
-- What MySQL and PostgreSQL read of the values and names that are quoted, as far as they document it:
-- a server that does not take a text, or not as it stands, gives no answer here.
use easyserver.Base.{
  length, leb, arith, ℕ, ◌≡◌, refl, not, Bool, true, false, ◌&&◌, ◌||◌, Option, none, some, [], ◌∷◌,
  ◌++◌, if◌then◌else◌, ◌==◌, nat_eq,
}
use easyserver.Base.Bytes.{bytes_eq}
use mathlib.Core.List.{append_assoc}
use easyserver.Database.Statements.{Text}
use easyserver.Database.Literals.{
  DbType, mysql, postgresql, redis, replace_all, mysql_escapes, escape_string, quote_identifier,
  text, format_value,
}
use easyserver.Database.Literals.Reading.{
  IsApart, inside, read, reads_all, doubled-IsRead, mysql-IsRead,
}

-- Does a backslash escape in a literal, and with what is a name quoted?
abbrev pub escapes : DbType → Bool
escapes mysql = true
escapes postgresql = false
escapes redis = false

abbrev pub name_quote : DbType → ℕ
name_quote mysql = 96
name_quote postgresql = 34
name_quote redis = 0

-- A text behind its opening quote.
abbrev pub opened : Text → Text
opened [] = []
opened (c ∷ s) = s

quoted_name :
    (q : ℕ) (s t : Text)
    → IsApart q t
    → read false q inside ((replace_all q (q ∷ q ∷ []) s ++ q ∷ []) ++ t) ≡ some (s, t)
quoted_name q s t h =
    rw (append_assoc (replace_all q (q ∷ q ∷ []) s) (q ∷ []) t)
      (reads_all false q ((q, q ∷ q ∷ []) ∷ []) (doubled-IsRead q) s t h refl)

abbrev pub has_zero : Text → Bool
has_zero [] = false
has_zero (c ∷ s) = c == 0 || has_zero s

abbrev pub ends_in_space : Text → Bool
ends_in_space [] = false
ends_in_space (c ∷ []) = c == 32
ends_in_space (c ∷ d ∷ s) = ends_in_space (d ∷ s)

abbrev pub is_nil : Text → Bool
is_nil [] = true
is_nil (c ∷ s) = false

-- A text once it was read, if the server takes it.
abbrev pub if_taken : (Text → Bool) → Option (Text × Text) → Option (Text × Text)
if_taken takes none = none
if_taken takes (some (s, rest)) = if takes s then some (s, rest) else none

-- `encodes` and `encodes_name` say which bytes are text in the server's encoding, and text of which a
-- name may consist.
module _ (encodes encodes_name : Text → Bool) where
  -- PostgreSQL takes no byte zero in a text.
  abbrev pub takes_value : DbType → Text → Bool
  takes_value mysql s = encodes s
  takes_value postgresql s = encodes s && not (has_zero s)
  takes_value redis s = false

  -- No server takes an empty name or a byte zero in it; PostgreSQL cuts names behind 63 bytes off,
  -- MySQL takes no more than 64 characters and no space at the end.
  abbrev pub takes_name : Text → Bool
  takes_name s =
      encodes_name s && not (has_zero s || is_nil s || ends_in_space s) && leb (length s) 63

  -- A literal, and a name, at the beginning of a text.
  abbrev pub read_value : DbType → Text → Option (Text × Text)
  read_value db s = if_taken (takes_value db) (read (escapes db) 39 inside (opened s))

  abbrev pub read_name : DbType → Text → Option (Text × Text)
  read_name db s = if_taken takes_name (read false (name_quote db) inside (opened s))

  taken :
      (takes : Text → Bool) (o : Option (Text × Text)) (s rest : Text)
      → o ≡ some (s, rest)
      → takes s ≡ true
      → if_taken takes o ≡ some (s, rest)
  taken takes o s rest e h = rw (e, h) refl

  pub format_value-read :
      (db : DbType) (s name t u : Text)
      → takes_value db s ≡ true
      → takes_name name ≡ true
      → IsApart 39 t
      → IsApart (name_quote db) u
      → (read_value db (format_value db (text s) ++ t) ≡ some (s, t))
        × (read_name db (quote_identifier db name ++ u) ≡ some (name, u))
  format_value-read mysql s name t u v n h k = (
    taken (takes_value mysql) (read true 39 inside ((escape_string mysql s ++ 39 ∷ []) ++ t)) s t
        (rw (append_assoc (escape_string mysql s) (39 ∷ []) t)
          (reads_all true 39 mysql_escapes mysql-IsRead s t h refl))
        v,
    taken takes_name _ name u (quoted_name 96 name u k) n,
  )
  format_value-read postgresql s name t u v n h k = (
    taken (takes_value postgresql) _ s t (quoted_name 39 s t h) v,
    taken takes_name _ name u (quoted_name 34 name u k) n,
  )
  format_value-read redis s name t u v n h k = absurd (ground (arith, v))
