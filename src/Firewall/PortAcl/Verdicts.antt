-- ===== src/Firewall/PortAcl/Verdicts.antt =====
-- What the rules of a port decide about a packet.
use easyserver.Base.{
  test_refl, ℕ, ◌≡◌, refl, sym, ap, ◌∙◌, inl, inr, Bool, true, false, ◌&&◌, ◌||◌, Option, none,
  some, List, [], ◌∷◌, ◌++◌, map, arith, if◌then◌else◌, Bool-cases, Option-cases, ◌==◌, nat_eq,
  string_eq, nat_test,
}
use mathlib.Core.Bool.{false≢true}
use mathlib.Core.List.{append_assoc, append-nil}
use easyserver.Base.Bytes.{bytes_eq}
use easyserver.Database.Statements.{Text}
use easyserver.Firewall.PortAcl.{
  Verdict, accept, drop_it, Rule, Nft, PortAcl, accept_rule, drop_rule, ensure_filter_input,
  add_all, acl_rules, apply,
}

pub record Packet : Type 0 where
  pub protocol : Text
  pub dport : ℕ
  pub source : ℕ

same_port : (a b : Text) (m n : ℕ) (t : Bool) → a ≡ b → m ≡ n → (a == b && nat_test m n && t) ≡ t
same_port a b m n t e f = rw (e, f, test_refl b) (ground arith)

abbrev pub or_later : Option Verdict → Option Verdict → Option Verdict
or_later none later = later
or_later (some v) later = some v

-- `covers` tells whether an address lies in a source that is written as a text.
module _ (covers : Text → ℕ → Bool) where
  abbrev pub is_source : Option Text → ℕ → Bool
  is_source none source = true
  is_source (some c) source = covers c source

  abbrev pub matches : Rule → Packet → Bool
  matches r p = r.protocol == p.protocol && nat_test r.dport p.dport && is_source r.saddr p.source

  -- A chain decides by its first rule that matches.
  unfoldable pub decide : List Rule → Packet → Option Verdict
  decide [] p = none
  decide (r ∷ rs) p = let rest = decide rs p in if matches r p then some r.verdict else rest

  pub decide-append :
      (rs ss : List Rule) (p : Packet) → decide (rs ++ ss) p ≡ or_later (decide rs p) (decide ss p)
  unfolding decide
  decide-append [] ss p = refl
  decide-append (r ∷ rs) ss p = elim (Bool-cases (matches r p)) [
    | inl e ↦ rw e refl
    | inr e ↦ rw e (decide-append rs ss p)
  ]

  unfoldable pub any_covers : List Text → ℕ → Bool
  any_covers [] source = false
  any_covers (c ∷ cs) source = covers c source || any_covers cs source

  -- What a row means for a packet to its port.
  abbrev pub admits : List Text → Packet → Verdict
  unfolding any_covers
  admits cidrs p = if any_covers cidrs p.source then accept else drop_it

  abbrev pub IsFor : PortAcl → Packet → Type 0
  IsFor acl p = (acl.protocol ≡ p.protocol) × (acl.port ≡ p.dport)

  pub decide-acl_rules :
      (acl : PortAcl) (cidrs : List Text) (p : Packet)
      → IsFor acl p
      → decide (map (accept_rule acl) cidrs ++ drop_rule acl ∷ []) p ≡ some (admits cidrs p)
  unfolding decide any_covers accept_rule drop_rule
  decide-acl_rules acl [] p (e, f) =
      ap (λ b. if b then some drop_it else none)
        (same_port acl.protocol p.protocol acl.port p.dport true e f)
  decide-acl_rules acl (c ∷ cs) p (e, f) =
      ap (λ b. if b then some accept else decide (map (accept_rule acl) cs ++ drop_rule acl ∷ []) p)
        (same_port acl.protocol p.protocol acl.port p.dport (covers c p.source) e f)
      ∙ elim (Bool-cases (covers c p.source)) [
        | inl h ↦ rw h refl
        | inr h ↦ rw h (decide-acl_rules acl cs p (e, f))
      ]

module _ {K : Type 0} (nft : Nft K) where
  pub rules-add_all :
      (rs : List Rule) (k j : K) → add_all nft rs k ≡ (j, true) → nft.rules j ≡ nft.rules k ++ rs
  unfolding add_all
  rules-add_all [] k j h = rw append-nil (ap nft.rules (sym (ap (λ r. r.0) h)))
  rules-add_all (r ∷ rs) k j h = elim (Option-cases (nft.add_rule r k)) [
    | inl e ↦ absurd (false≢true (ap (λ r. r.1) (rw (e, add_all) at h)))
    | inr (i, e) ↦
        rules-add_all rs i j (rw (e, add_all) at h)
        ∙ ap (λ us. us ++ rs) (nft.add_rule_lem r k i e)
        ∙ append_assoc (nft.rules k) (r ∷ []) rs
  ]

  pub rules-ensure_filter_input :
      (k j : K) → ensure_filter_input nft k ≡ (j, true) → nft.rules j ≡ nft.rules k
  rules-ensure_filter_input k j h = elim (Bool-cases (nft.list_table k)) [
    | inl e ↦ ap nft.rules (sym (ap (λ r. r.0) (rw (e) at h)))
    | inr e ↦ elim (Option-cases (nft.add_table k)) [
      | inl f ↦ absurd (false≢true (ap (λ r. r.1) (rw (e, f) at h)))
      | inr (i, f) ↦ elim (Option-cases (nft.add_chain i)) [
        | inl g ↦ absurd (false≢true (ap (λ r. r.1) (rw (e, f, g) at h)))
        | inr (l, g) ↦
            ap nft.rules (sym (ap (λ r. r.0) (rw (e, f, g) at h)))
            ∙ nft.add_chain_lem i l g
            ∙ nft.add_table_lem k i f
      ]
    ]
  ]

  -- A row that is applied without an error has all of its rules behind those that were there.
  pub rules-apply :
      (acl : PortAcl) (k j : K)
      → apply nft acl k ≡ (j, true)
      → nft.rules j ≡ nft.rules k ++ acl_rules acl
  unfolding apply
  rules-apply acl k j h = elim (Bool-cases (ensure_filter_input nft k).1) [
    | inl e ↦
        rules-add_all (acl_rules acl) (ensure_filter_input nft k).0 j (rw (e) at h)
        ∙ ap (λ us. us ++ acl_rules acl)
            (rules-ensure_filter_input k (ensure_filter_input nft k).0
              (ap (λ b. ((ensure_filter_input nft k).0, b)) e))
    | inr e ↦ absurd (false≢true (ap (λ r. r.1) (rw (e) at h)))
  ]
