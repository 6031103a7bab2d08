-- ===== src/Web/Bans/Serving.antt =====
-- What nginx denies after a ban.
use easyserver.Base.{
  test_refl, ℕ, ◌+◌, ◌≡◌, refl, ap, ◌∙◌, subst, inl, inr, Bool, true, false, not, ◌&&◌, ◌||◌,
  Option, none, List, [], ◌∷◌, ◌++◌, arith, if◌then◌else◌, Bool-cases, Option-cases, ◌==◌, nat_eq,
  codes,
}
use easyserver.Base.Bytes.{bytes_eq}
use easyserver.Database.Statements.{Text}
use easyserver.Web.Bans.{
  BannedIp, is_past, has_ip, deny_lines, Firewall, Faults, World, expiry, remark_of, refreshed,
  with_rule, add_row, remove_row, remove_banned_ip, without_rules, ban_ip, unban_ip, get_banned_ip,
}

-- How often an address stands in a list, and whether a ban of it is current.
abbrev pub times : Text → List Text → ℕ
times ip [] = 0
times ip (x ∷ xs) = (if x == ip then 1 else 0) + times ip xs

abbrev pub is_banned : ℕ → Text → List BannedIp → Bool
is_banned now ip [] = false
is_banned now ip (b ∷ bans) = b.ip == ip && not (is_past now b.expires_at) || is_banned now ip bans

abbrev pub share : Bool → Bool → ℕ
share true b = 0
share false true = 1
share false false = 0

pub times-deny_lines :
    (now : ℕ) (ip : Text) (seen : List Text) (bans : List BannedIp)
    → times ip (deny_lines now seen bans) ≡ share (has_ip ip seen) (is_banned now ip bans)
times-deny_lines now ip seen [] = elim (Bool-cases (has_ip ip seen)) [
  | inl h ↦ rw h refl
  | inr h ↦ rw h refl
]
times-deny_lines now ip seen (b ∷ bans) =
    let skipped = times-deny_lines now ip seen bans in
    let added = times-deny_lines now ip (b.ip ∷ seen) bans in
    elim (Bool-cases (is_past now b.expires_at)) [
      | inl past ↦ elim (Bool-cases (b.ip == ip)) [
        | inl mine ↦ rw (past, mine) skipped
        | inr other ↦ rw (past, other) skipped
      ]
      | inr current ↦ elim (Bool-cases (has_ip b.ip seen)) [
        | inl known ↦ elim (Bool-cases (b.ip == ip)) [
          | inl mine ↦
              let here =
                subst (λ x. has_ip x seen ≡ true) ((bytes_eq.test_iff b.ip ip).0 mine) known in
              rw (current, known, mine, here) (rw here at skipped)
          | inr other ↦ rw (current, known, other) skipped
        ]
        | inr new ↦ elim (Bool-cases (b.ip == ip)) [
          | inl mine ↦
              let here =
                subst (λ x. has_ip x seen ≡ false) ((bytes_eq.test_iff b.ip ip).0 mine) new in
              rw (current, new, mine, here) (omega (arith, rw mine at added))
          | inr other ↦ rw (current, new, other) (omega (arith, rw other at added))
        ]
      ]
    ]

share_lem : (b : Bool) → share false b ≡ (if b then 1 else 0)
share_lem true = refl
share_lem false = refl

-- nginx denies each address with a current ban once, and no other.
abbrev pub Serves : {F : Type 0} → ℕ → World F → Type 0
Serves now w = (ip : Text) → times ip w.loaded ≡ (if is_banned now ip w.bans then 1 else 0)

module _ {F : Type 0} (firewall : Firewall F) where
  refreshed-Serves :
      (now : ℕ) (list write test reload : Bool) (w : World F)
      → (refreshed firewall now list write test reload w).1 ≡ none
      → Serves now (refreshed firewall now list write test reload w).0
        × ((refreshed firewall now list write test reload w).0.bans ≡ w.bans)
  refreshed-Serves now true write test reload w h = absurd (ground (arith, h))
  refreshed-Serves now false true test reload w h = absurd (ground (arith, h))
  refreshed-Serves now false false true reload w h = absurd (ground (arith, h))
  refreshed-Serves now false false false true w h = absurd (ground (arith, h))
  refreshed-Serves now false false false false w h =
      (λ ip. times-deny_lines now ip [] w.bans ∙ share_lem (is_banned now ip w.bans), refl)

  with_rule-Serves :
      (now : ℕ) (faults : Faults) (w : World F) (r : F × Bool)
      → (with_rule firewall now faults w r).1 ≡ none
      → Serves now (with_rule firewall now faults w r).0
        × ((with_rule firewall now faults w r).0.bans ≡ w.bans)
  with_rule-Serves now faults w (fw, true) h =
      refreshed-Serves now faults.list_fails faults.write_fails faults.test_fails
        faults.reload_fails (record w { fw = fw }) h
  with_rule-Serves now faults w (fw, false) h = absurd (ground (arith, h))

  banned_here :
      (now : ℕ) (b : BannedIp) (bans : List BannedIp)
      → is_past now b.expires_at ≡ false
      → is_banned now b.ip (b ∷ bans) ≡ true
  banned_here now b bans e = rw (test_refl b.ip, e) refl

  add_row-Serves :
      (fails unread : Bool) (now : ℕ) (faults : Faults) (b : BannedIp) (remark : Text) (w : World F)
      → is_past now b.expires_at ≡ false
      → (add_row firewall fails unread now faults b remark w).1 ≡ none
      → (times b.ip (add_row firewall fails unread now faults b remark w).0.loaded ≡ 1)
        × Serves now (add_row firewall fails unread now faults b remark w).0
  add_row-Serves true unread now faults b remark w e h = absurd (ground (arith, h))
  add_row-Serves false true now faults b remark w e h = absurd (ground (arith, h))
  add_row-Serves false false now faults b remark w e h =
      let after : World F = record w { bans = b ∷ w.bans; next_id = w.next_id + 1 } in
      let made = with_rule-Serves now faults after (firewall.create_rule b.ip remark w.fw) h in
      (
        made.0 b.ip
            ∙ ap (λ bans. if is_banned now b.ip bans then 1 else 0) made.1
            ∙ ap (λ t. if t then 1 else 0) (banned_here now b w.bans e),
        made.0,
      )

  -- After a ban that succeeds, whatever site it is for, and is not over when the file is written,
  -- nginx denies the address to everyone; each other address it denies once if a ban of it is current
  -- then, and else not at all.
  pub ban_ip-Serves :
      (now later : ℕ) (faults : Faults) (website : Option ℕ) (ip reason source : Text)
      (duration : ℕ) (w : World F)
      → is_past later (expiry now duration) ≡ false
      → (ban_ip firewall now later faults website ip reason source duration w).1 ≡ none
      → (times ip (ban_ip firewall now later faults website ip reason source duration w).0.loaded
          ≡ 1)
        × Serves later (ban_ip firewall now later faults website ip reason source duration w).0
  ban_ip-Serves now later faults website [] reason source duration w k h =
      absurd (ground (arith, h))
  ban_ip-Serves now later faults website (c ∷ ip) reason source duration w k h =
      add_row-Serves faults.add_fails faults.reread_fails later faults
        (record {
          id = w.next_id;
          website_id = website;
          ip = c ∷ ip;
          reason = reason;
          source = source;
          expires_at = expiry now duration;
        })
        (remark_of (c ∷ ip) ++ codes ": " ++ reason) w k h

  -- A ban that is lifted with success leaves nginx with the bans that are left.
  remove_row-Serves :
      (fails : Bool) (now : ℕ) (faults : Faults) (b : BannedIp) (id : ℕ) (w : World F)
      → (remove_row firewall fails now faults b id w).1 ≡ none
      → Serves now (remove_row firewall fails now faults b id w).0
  remove_row-Serves true now faults b id w h = absurd (ground (arith, h))
  remove_row-Serves false now faults b id w h =
      (refreshed-Serves now faults.list_fails faults.write_fails faults.test_fails
        faults.reload_fails
        (record w {
          bans = remove_banned_ip id w.bans;
          fw = without_rules firewall b.ip (firewall.list_rules w.fw) w.fw;
        })
        h).0

  pub unban_ip-Serves :
      (now : ℕ) (faults : Faults) (id : ℕ) (w : World F)
      → (unban_ip firewall now faults id w).1 ≡ none
      → Serves now (unban_ip firewall now faults id w).0
  unban_ip-Serves now faults id w h = elim (Option-cases (get_banned_ip id w.bans)) [
    | inl e ↦ absurd (ground (arith, rw e at h))
    | inr (b, e) ↦ rw e (remove_row-Serves faults.remove_fails now faults b id w (rw e at h))
  ]
