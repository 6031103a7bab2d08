-- ===== src/Infra/Config/Reloading.antt =====
-- What a second start with the same environment makes of the configuration.
use easyserver.Base.{◌≡◌, refl, Bool, true, false, ◌||◌, Option, some, [], ◌∷◌, nat_eq}
use easyserver.Base.Bytes.{bytes_eq}
use easyserver.Database.Statements.{Text}
use easyserver.Infra.Config.{Config}
use easyserver.Infra.Config.Merging.{
  text_or, is_empty, generates, Environment, override, complete, load_config,
}
use easyserver.Infra.Config.Repeated.{IsKeyed, complete_again}

is_empty-override : (v x : Text) → is_empty x ≡ false → is_empty (override v x) ≡ false
is_empty-override [] x h = h
is_empty-override (c ∷ v) x h = refl

is_empty_or : (d x : Text) → is_empty d ≡ false → is_empty (text_or d x) ≡ false
is_empty_or d [] h = h
is_empty_or d (c ∷ x) h = refl

or_both : (a b : Bool) → a ≡ false → b ≡ false → (a || b) ≡ false
or_both true b h k = h
or_both false b h k = k

generates-complete :
    (env : Environment) (jwt key : Text) (c : Config)
    → IsKeyed jwt key c
    → generates (complete env jwt key c) ≡ false
generates-complete env jwt key c k =
    or_both (is_empty (complete env jwt key c).auth.jwt_secret)
      (is_empty (complete env jwt key c).secrets_key)
      (is_empty-override env.env_jwt_secret (text_or jwt c.auth.jwt_secret) k.0) k.1

-- A start fills in the defaults and then applies the environment. Doing so again to what came out,
-- with the same environment and whatever other secrets could be drawn, changes nothing, and no secret
-- is drawn, if the secrets that the first start drew were not empty.
pub complete_stable :
    (env : Environment) (jwt key jwt' key' : Text) (c : Config)
    → is_empty jwt ≡ false
    → is_empty key ≡ false
    → (complete env jwt' key' (complete env jwt key c) ≡ complete env jwt key c)
      × (generates (complete env jwt key c) ≡ false)
complete_stable env jwt key jwt' key' c j k =
    let keyed : IsKeyed jwt key c =
      (is_empty_or jwt c.auth.jwt_secret j, is_empty_or key c.secrets_key k) in
    (complete_again env jwt key jwt' key' c keyed, generates-complete env jwt key c keyed)

-- A start without a secret to draw leaves the file as it is.
pub load_kept :
    {File : Type 0} (unmarshal : Text → File → Option Config) (marshal : Config → File)
    (env : Environment) (saves : Bool) (jwt key : Text) (file : File) (c : Config)
    → generates c ≡ false
    → load_config unmarshal marshal env saves jwt key file (some c)
      ≡ some (complete env jwt key c, file)
load_kept unmarshal marshal env saves jwt key file c g = rw g refl
