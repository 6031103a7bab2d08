-- ===== src/Database/Literals/Examples.antt =====
-- Concrete texts to be quoted.
use easyserver.Base.{Bool, ◌≡◌, refl, true, some, ◌++◌, arith, nat_eq, codes}
use easyserver.Base.Bytes.{bytes_eq}
use easyserver.Database.Statements.{Text}
use easyserver.Database.Literals.{mysql, postgresql, text, boolean, format_value, quote_identifier}
use easyserver.Database.Literals.Servers.{read_value, read_name, format_value-read}

-- A text that tries to leave its quotes.
abbrev evil : Text
evil = codes "\\' OR 1=1 -- "

abbrev rest : Text
rest = codes ", 2);"

evil_mysql : format_value mysql (text evil) ≡ codes "'\\\\\\' OR 1=1 -- '"
evil_mysql = refl

evil_postgresql : format_value postgresql (text evil) ≡ codes "'\\'' OR 1=1 -- '"
evil_postgresql = refl

true_mysql : format_value mysql (boolean true) ≡ codes "1"
true_mysql = refl

abbrev all_text : Text → Bool
all_text s = true

format_value-read_example :
    (read_value all_text all_text mysql (format_value mysql (text evil) ++ rest)
      ≡ some (evil, rest))
    × (read_name all_text all_text mysql (quote_identifier mysql (codes "a`b") ++ rest)
        ≡ some (codes "a`b", rest))
format_value-read_example =
    format_value-read all_text all_text mysql evil (codes "a`b") rest rest refl refl
      (λ h. ground (arith, h)) (λ h. ground (arith, h))
