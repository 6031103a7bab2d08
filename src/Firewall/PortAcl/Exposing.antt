-- ===== src/Firewall/PortAcl/Exposing.antt =====
-- What `Expose` does to the packets of a port.
use easyserver.Base.{
  ℕ, ◌≡◌, refl, sym, ap, ◌∙◌, inl, inr, Bool, true, false, not, ◌&&◌, ◌||◌, Option, none, some,
  List, arith, ltb, Bool-cases, ◌==◌, nat_eq, string_eq, codes,
}
use easyserver.Base.Bytes.{bytes_eq}
use easyserver.Database.Statements.{Text}
use easyserver.Firewall.PortAcl.{
  Verdict, Nft, PortAcl, Store, Refusal, acl_rules, apply, upsert, applied, store_and_apply, expose,
  clean_protocol, normalize_cidrs,
}
use easyserver.Firewall.PortAcl.Verdicts.{
  Packet, decide, decide-append, or_later, admits, decide-acl_rules, rules-apply,
}

upsert-kept :
    (acl : PortAcl) (s : Store)
    → ((upsert acl s).0.cidrs ≡ acl.cidrs)
      × ((upsert acl s).0.protocol ≡ acl.protocol)
      × ((upsert acl s).0.port ≡ acl.port)
unfolding upsert
upsert-kept acl s = ground arith

some-ne : {e : Refusal} → ◌≡◌ {A = Option Refusal} (some e) none → ⊥
some-ne h = cc

some-none : {A : Type 0} {e : Refusal} → ◌≡◌ {A = Option Refusal} (some e) none → A
some-none h = absurd (some-ne h)

module _ {K : Type 0} (nft : Nft K) where
  applied-none :
      (s t : Store) (r : K × Bool) (j : K) → applied nft s r ≡ ((t, j), none) → r ≡ (j, true)
  applied-none s t (k, true) j h = ap (λ r. (r.0.1, true)) h
  applied-none s t (k, false) j h = some-none (ap (λ r. r.1) h)

  -- The row that a call that succeeds applies.
  pub record IsApplied (port : ℕ) (protocol : Text) (cidrs : List Text) (k j : K) : Type 0 where
    pub row : PortAcl
    pub row_port : row.port ≡ port
    pub row_protocol : row.protocol ≡ protocol
    pub row_cidrs : row.cidrs ≡ cidrs
    pub result : apply nft row k ≡ (j, true)

  store-IsApplied :
      (acl : PortAcl) (is_down : Bool) (s t : Store) (k j : K)
      → store_and_apply nft acl is_down s k ≡ ((t, j), none)
      → IsApplied acl.port acl.protocol acl.cidrs k j
  unfolding store_and_apply apply
  store-IsApplied acl true s t k j h = some-none (ap (λ r. r.1) h)
  store-IsApplied acl false s t k j h = record {
    row = (upsert acl s).0;
    row_port = (upsert-kept acl s).2;
    row_protocol = (upsert-kept acl s).1;
    row_cidrs = (upsert-kept acl s).0;
    result = applied-none (upsert acl s).1 t (apply nft (upsert acl s).0 k) j h;
  }

  module _ (is_cidr is_ip : Text → Bool) where
    expose-IsApplied :
        (port : ℕ) (protocol : Text) (cidrs clean : List Text) (remark : Text) (is_down : Bool)
        (s t : Store) (k j : K)
        → normalize_cidrs is_cidr is_ip cidrs ≡ inr clean
        → expose nft is_cidr is_ip port protocol cidrs remark is_down s k ≡ ((t, j), none)
        → IsApplied port (clean_protocol protocol) clean k j
    unfolding expose
    expose-IsApplied port protocol cidrs clean remark is_down s t k j e h =
        elim (Bool-cases (
          not (clean_protocol protocol == codes "tcp")
          && not (clean_protocol protocol == codes "udp"))) [
            | inl f ↦ some-none (ap (λ r. r.1) (rw (f) at h))
            | inr f ↦ elim (Bool-cases (ltb port 1 || ltb 65535 port)) [
              | inl g ↦ some-none (ap (λ r. r.1) (rw (f, g) at h))
              | inr g ↦
                  store-IsApplied
                    (record {
                      id = 0;
                      port = port;
                      protocol = clean_protocol protocol;
                      cidrs = clean;
                      remark = remark;
                    })
                    is_down s t k j (rw (f, g, e) at h)
            ]
          ]

    module _ (covers : Text → ℕ → Bool) where
      -- A call of `Expose` that succeeds settles every packet to its port and protocol that no rule
      -- decided before: it is accepted if one of the sources covers where it comes from, and
      -- dropped if none does. What was decided before stays decided as it was.
      pub expose_decides :
          (port : ℕ) (protocol : Text) (cidrs clean : List Text) (remark : Text) (is_down : Bool)
          (s t : Store) (k j : K) (p : Packet)
          → normalize_cidrs is_cidr is_ip cidrs ≡ inr clean
          → expose nft is_cidr is_ip port protocol cidrs remark is_down s k ≡ ((t, j), none)
          → p.protocol ≡ clean_protocol protocol
          → p.dport ≡ port
          → decide covers (nft.rules j) p
            ≡ or_later (decide covers (nft.rules k) p) (some (admits covers clean p))
      expose_decides port protocol cidrs clean remark is_down s t k j p e h ep eq =
          ap (λ rs. decide covers rs p) (rules-apply nft a.row k j a.result)
          ∙ decide-append covers (nft.rules k) (acl_rules a.row) p
          ∙ ap (or_later (decide covers (nft.rules k) p)) (
              decide-acl_rules covers a.row a.row.cidrs p
                (a.row_protocol ∙ sym ep, a.row_port ∙ sym eq)
              ∙ ap (λ cs. some (admits covers cs p)) a.row_cidrs)
        where
          a : IsApplied port (clean_protocol protocol) clean k j
          a = expose-IsApplied port protocol cidrs clean remark is_down s t k j e h

      -- A second call of `Expose` for a port and protocol decides no packet anew, whatever sources
      -- it names, those it takes away included.
      pub expose_again :
          (port : ℕ) (protocol : Text) (cidrs clean cidrs' clean' : List Text)
          (remark remark' : Text) (s t u : Store) (k j i : K) (p : Packet)
          → normalize_cidrs is_cidr is_ip cidrs ≡ inr clean
          → expose nft is_cidr is_ip port protocol cidrs remark false s k ≡ ((t, j), none)
          → normalize_cidrs is_cidr is_ip cidrs' ≡ inr clean'
          → expose nft is_cidr is_ip port protocol cidrs' remark' false t j ≡ ((u, i), none)
          → p.protocol ≡ clean_protocol protocol
          → p.dport ≡ port
          → decide covers (nft.rules i) p ≡ decide covers (nft.rules j) p
      expose_again port protocol cidrs clean cidrs' clean' remark remark' s t u k j i p e h e' h' ep
            eq =
          expose_decides port protocol cidrs' clean' remark' false t u j i p e' h' ep eq
          ∙ settled (decide covers (nft.rules k) p) _ _ _
              (expose_decides port protocol cidrs clean remark false s t k j p e h ep eq)
        where
          settled :
              (o : Option Verdict) (v w : Verdict) (q : Option Verdict)
              → q ≡ or_later o (some v)
              → or_later q (some w) ≡ q
          settled none v w q h = rw h refl
          settled (some x) v w q h = rw h refl
