-- ===== src/Web/Bans.antt =====
-- internal/domain/web/security/service.go and repo_sqlite.go: the addresses that are banned, in the
-- table, in the firewall and in the file that nginx includes.
pub mod Serving
mod Examples
use easyserver.Base.{
  test_refl, ℕ, zero, suc, ◌+◌, ◌-◌, ◌*◌, ◌^◌, ◌≤◌, ◌<◌, ◌≡◌, refl, sym, ap, ◌∙◌, subst, ◌≢◌, ◌↔◌,
  ◌⊎◌, inl, inr, Bool, true, false, not, ◌&&◌, ◌||◌, Option, none, some, List, [], ◌∷◌, ◌++◌, arith,
  ltb, leb, leb→le, if◌then◌else◌, Bool-cases, Option-cases, Eq, ◌==◌, nat_eq, ℤ, pos, negsuc,
  codes, length, All,
}
use easyserver.Base.Bytes.{bytes_eq, has_prefix}
use easyserver.Database.Statements.{Text}

pub record BannedIp : Type 0 where
  pub id : ℕ
  -- `none` for a ban that is global.
  pub website_id : Option ℕ
  pub ip : Text
  pub reason : Text
  pub source : Text
  pub expires_at : Option ℕ

-- Before(now) of a time that is set.
abbrev pub is_past : ℕ → Option ℕ → Bool
is_past now none = false
is_past now (some t) = ltb t now

abbrev pub has_ip : Text → List Text → Bool
has_ip ip [] = false
has_ip ip (x ∷ xs) = x == ip || has_ip ip xs

-- The loop of `refreshNginxBanFile`: the addresses that are denied.
abbrev pub deny_lines : ℕ → List Text → List BannedIp → List Text
deny_lines now seen [] = []
deny_lines now seen (b ∷ bans) =
    let skipped = deny_lines now seen bans in
    let added = deny_lines now (b.ip ∷ seen) bans in
    if is_past now b.expires_at || has_ip b.ip seen then skipped else b.ip ∷ added

-- What the service uses of the firewall; without one, no rule is made and creating never fails.
pub record Firewall (F : Type 0) : Type 0 where
  -- A rule with the address and the remark: the new state, and whether it was created.
  pub create_rule : Text → Text → F → F × Bool
  -- Id, address and remark of each rule; `none` is an error.
  pub list_rules : F → Option (List (ℕ × Text × Text))
  pub delete_rule : ℕ → F → F

-- What may go wrong outside, in one call.
pub record Faults : Type 0 where
  pub list_fails : Bool
  pub add_fails : Bool
  -- The row was inserted and cannot be read back.
  pub reread_fails : Bool
  pub remove_fails : Bool
  pub write_fails : Bool
  pub test_fails : Bool
  pub reload_fails : Bool

pub data Refusal : Type 0 where
  no_ip not_found database no_rule no_file bad_config no_reload : Refusal

-- The table, newest first; the firewall; the file, and what nginx has loaded of it.
pub record World (F : Type 0) : Type 0 where
  pub bans : List BannedIp
  pub next_id : ℕ
  pub fw : F
  pub file : List Text
  pub loaded : List Text

abbrev pub remark_of : Text → Text
remark_of ip = codes "网站安全封禁 " ++ ip

-- The rows without the one of an id.
abbrev pub remove_banned_ip : ℕ → List BannedIp → List BannedIp
remove_banned_ip id [] = []
remove_banned_ip id (b ∷ bans) =
    let rest = remove_banned_ip id bans in if b.id == id then rest else b ∷ rest

abbrev pub get_banned_ip : ℕ → List BannedIp → Option BannedIp
get_banned_ip id [] = none
get_banned_ip id (b ∷ bans) =
    let rest = get_banned_ip id bans in if b.id == id then some b else rest

-- `expiresAt` of `BanIP`; a duration that is not positive stands as zero here.
abbrev pub expiry : ℕ → ℕ → Option ℕ
expiry now zero = none
expiry now (suc d) = some (now + suc d)

module _ {F : Type 0} (firewall : Firewall F) where
  -- `refreshNginxBanFile`, by what fails: the query, the write, the test of the configuration, the
  -- reload.
  abbrev pub refreshed : ℕ → Bool → Bool → Bool → Bool → World F → World F × Option Refusal
  refreshed now true write test reload w = (w, some database)
  refreshed now false true test reload w = (w, some no_file)
  refreshed now false false true reload w =
      (record w { file = deny_lines now [] w.bans }, some bad_config)
  refreshed now false false false true w =
      (record w { file = deny_lines now [] w.bans }, some no_reload)
  refreshed now false false false false w =
      (record w { file = deny_lines now [] w.bans; loaded = deny_lines now [] w.bans }, none)

  abbrev pub refresh : ℕ → Faults → World F → World F × Option Refusal
  refresh now faults w =
      refreshed now faults.list_fails faults.write_fails faults.test_fails faults.reload_fails w

  abbrev pub with_rule : ℕ → Faults → World F → F × Bool → World F × Option Refusal
  with_rule now faults w (fw, true) = refresh now faults (record w { fw = fw })
  with_rule now faults w (fw, false) = (record w { fw = fw }, some no_rule)

  -- The flags tell whether the row could not be added, and not be read back.
  abbrev pub add_row :
      Bool → Bool → ℕ → Faults → BannedIp → Text → World F → World F × Option Refusal
  add_row true unread now faults b remark w = (w, some database)
  add_row false true now faults b remark w =
      (record w { bans = b ∷ w.bans; next_id = w.next_id + 1 }, some database)
  add_row false false now faults b remark w =
      with_rule now faults (record w { bans = b ∷ w.bans; next_id = w.next_id + 1 })
        (firewall.create_rule b.ip remark w.fw)

  -- `BanIP`, with the duration in seconds; `now` is the time that the expiry counts from, `later` the
  -- one at which the file is written.
  abbrev pub ban_ip :
      ℕ → ℕ → Faults → Option ℕ → Text → Text → Text → ℕ → World F → World F × Option Refusal
  ban_ip now later faults website [] reason source duration w = (w, some no_ip)
  ban_ip now later faults website (c ∷ ip) reason source duration w =
      add_row faults.add_fails faults.reread_fails later faults
        (record {
          id = w.next_id;
          website_id = website;
          ip = c ∷ ip;
          reason = reason;
          source = source;
          expires_at = expiry now duration;
        })
        (remark_of (c ∷ ip) ++ codes ": " ++ reason) w

  -- The loop over the rules.
  unfoldable pub delete_rules : Text → List (ℕ × Text × Text) → F → F
  unfolding has_prefix
  delete_rules ip [] fw = fw
  delete_rules ip ((id, source, remark) ∷ rules) fw =
      delete_rules ip rules (
        if source == ip && has_prefix remark (remark_of ip) then firewall.delete_rule id fw else fw)

  abbrev pub without_rules : Text → Option (List (ℕ × Text × Text)) → F → F
  without_rules ip none fw = fw
  without_rules ip (some rules) fw = delete_rules ip rules fw

  -- The flag tells whether the row could not be removed.
  abbrev pub remove_row : Bool → ℕ → Faults → BannedIp → ℕ → World F → World F × Option Refusal
  remove_row true now faults b id w = (w, some database)
  remove_row false now faults b id w = refresh now faults (record w {
    bans = remove_banned_ip id w.bans;
    fw = without_rules b.ip (firewall.list_rules w.fw) w.fw;
  })

  abbrev pub lift_ban : ℕ → Faults → ℕ → Option BannedIp → World F → World F × Option Refusal
  lift_ban now faults id none w = (w, some not_found)
  lift_ban now faults id (some b) w = remove_row faults.remove_fails now faults b id w

  -- `UnbanIP`, when the row can be read.
  abbrev pub unban_ip : ℕ → Faults → ℕ → World F → World F × Option Refusal
  unban_ip now faults id w = lift_ban now faults id (get_banned_ip id w.bans) w
