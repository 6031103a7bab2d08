-- ===== src/Firewall/PortAcl.antt =====
-- internal/domain/firewall/port_acl.go and port_acl_repo.go: the sources that may reach a port. The
-- program nft is an interface; the list of sources of a row is stored as it is, not joined by commas.
pub mod Verdicts
mod Examples
pub mod Exposing
use easyserver.Base.{
  Result-cases, test_refl, ℕ, zero, suc, ◌+◌, ◌-◌, ◌*◌, ◌/◌, ◌%◌, ◌≤◌, ◌<◌, min, String, ◌≡◌, refl,
  sym, ap, ◌∙◌, subst, ◌≢◌, ◌↔◌, ◌⊎◌, inl, inr, Bool, true, false, not, ◌&&◌, ◌||◌, Option, none,
  some, List, [], ◌∷◌, ◌++◌, map, arith, ltb, leb, leb→le, if◌then◌else◌, Bool-cases, Option-cases,
  Eq, ◌==◌, nat_eq, string_eq, nat_test, nat_test_iff, ℤ, pos, negsuc, codes, length, take, drop,
  keep, All, length-append, length-drop, Result, ok, err, ◌>>=◌, Kind, AppError, new_sentinel,
  plain_error, bad_request, unauthorized, forbidden, not_found, conflict, rate_limit, internal,
}
use mathlib.Core.List.{append_assoc}
use easyserver.Base.Bytes.{bytes_eq, has_prefix, has_word}
use easyserver.Database.Statements.{Text, trim_space}

pub data Verdict : Type 0 where
  accept drop_it : Verdict

-- A rule that the service adds to the chain INPUT of the table inet filter.
pub record Rule : Type 0 where
  pub protocol : Text
  pub dport : ℕ
  pub saddr : Option Text
  pub verdict : Verdict
  pub comment : Text

-- The commands of nft that the service runs, over the state of the kernel; `none` is an error.
-- `rules` are those of the chain, in order: a command that adds to a table or a chain that is not
-- there finds no rule in it and leaves none, and `add rule` appends.
pub record Nft (K : Type 0) : Type 0 where
  pub list_table : K → Bool
  pub add_table : K → Option K
  pub add_chain : K → Option K
  pub add_rule : Rule → K → Option K
  pub list_chain : K → Option Text
  pub delete_rule : Text → K → Option K
  pub rules : K → List Rule
  pub add_table_lem : (k j : K) → add_table k ≡ some j → rules j ≡ rules k
  pub add_chain_lem : (k j : K) → add_chain k ≡ some j → rules j ≡ rules k
  pub add_rule_lem : (r : Rule) (k j : K) → add_rule r k ≡ some j → rules j ≡ rules k ++ r ∷ []

pub record PortAcl : Type 0 where
  pub id : ℕ
  pub port : ℕ
  pub protocol : Text
  pub cidrs : List Text
  pub remark : Text

-- The table port_acl.
pub record Store : Type 0 where
  pub rows : List PortAcl
  pub last_id : ℕ

pub data Refusal : Type 0 where
  bad_protocol bad_port bad_source no_source database nft_failed : Refusal

-- `strings.ToLower` of ASCII.
abbrev pub lower : ℕ → ℕ
lower c = if leb 65 c && leb c 90 then c + 32 else c

abbrev pub clean_protocol : Text → Text
clean_protocol protocol = map lower (trim_space protocol)

unfoldable pub decimal : ℕ → ℕ → Text
decimal zero n = []
decimal (suc fuel) n =
    if ltb n 10 then (48 + n) ∷ [] else decimal fuel (n / 10) ++ (48 + n % 10) ∷ []

-- `strconv.FormatInt`, on fuel that is more than the digits.
abbrev pub format_id : ℕ → Text
format_id n = decimal (suc n) n

abbrev pub prefix : Text
prefix = codes "easyserver-acl"

-- The tags of a row, with the quote that ends a comment.
abbrev pub accept_tag : ℕ → Text
accept_tag id = prefix ++ codes "-" ++ format_id id ++ 34 ∷ []

abbrev pub deny_tag : ℕ → Text
deny_tag id = prefix ++ codes "-deny-" ++ format_id id ++ 34 ∷ []

abbrev pub accept_rule : PortAcl → Text → Rule
unfolding decimal
accept_rule acl cidr = record {
  protocol = acl.protocol;
  dport = acl.port;
  saddr = some cidr;
  verdict = accept;
  comment = 34 ∷ accept_tag acl.id;
}

abbrev pub drop_rule : PortAcl → Rule
unfolding decimal
drop_rule acl = record {
  protocol = acl.protocol;
  dport = acl.port;
  saddr = none;
  verdict = drop_it;
  comment = 34 ∷ deny_tag acl.id;
}

abbrev pub acl_rules : PortAcl → List Rule
acl_rules acl = map (accept_rule acl) acl.cidrs ++ drop_rule acl ∷ []

-- `Get`.
abbrev pub is_row : ℕ → Text → PortAcl → Bool
is_row port protocol row = nat_test row.port port && row.protocol == protocol

unfoldable pub find_row : ℕ → Text → List PortAcl → Option PortAcl
find_row port protocol [] = none
find_row port protocol (row ∷ rows) =
    if is_row port protocol row then some row else find_row port protocol rows

abbrev pub rewrite_row : PortAcl → PortAcl → PortAcl
rewrite_row acl row =
    if nat_test row.id acl.id then record row { cidrs = acl.cidrs; remark = acl.remark } else row

-- `Upsert` of a row without an id, with the id that it gets.
unfoldable pub upsert : PortAcl → Store → PortAcl × Store
unfolding find_row
upsert acl s = elim (find_row acl.port acl.protocol s.rows) [
  | none ↦
      let new : PortAcl = record acl { id = suc s.last_id } in
      (new, record { rows = s.rows ++ new ∷ []; last_id = suc s.last_id })
  | some row ↦
      let same : PortAcl = record acl { id = row.id } in
      (same, record s { rows = map (rewrite_row same) s.rows })
]

-- `normalizeCIDRs`; `is_cidr` and `is_ip` are `net.ParseCIDR` and `net.ParseIP`.
module _ (is_cidr is_ip : Text → Bool) where
  abbrev pub normal_form : Text → Option Text
  normal_form c = if is_cidr c then some c else if is_ip c then some (c ++ codes "/32") else none

  unfoldable pub is_seen : Text → List Text → Bool
  is_seen c [] = false
  is_seen c (d ∷ ds) = d == c || is_seen c ds

  abbrev pub keep_new : Text → List Text → List Text
  unfolding is_seen
  keep_new c clean = if is_seen c clean then clean else clean ++ c ∷ []

  unfoldable pub normalize_from : List Text → List Text → Option (List Text)
  unfolding is_seen trim_space
  normalize_from [] clean = some clean
  normalize_from (c ∷ cs) clean =
      let skipped = normalize_from cs clean in
      if trim_space c == [] then skipped else elim (normal_form (trim_space c)) [
        | none ↦ none
        | some d ↦ normalize_from cs (keep_new d clean)
      ]

  abbrev pub some_source : Option (List Text) → Refusal ⊎ List Text
  some_source none = inl bad_source
  some_source (some []) = inl no_source
  some_source (some (c ∷ cs)) = inr (c ∷ cs)

  unfoldable pub normalize_cidrs : List Text → Refusal ⊎ List Text
  unfolding normalize_from
  normalize_cidrs cidrs = some_source (normalize_from cidrs [])

abbrev pub push_char : ℕ → List Text → List Text
push_char c [] = (c ∷ []) ∷ []
push_char c (line ∷ more) = (c ∷ line) ∷ more

-- The handle of a line of the listing: the digits behind "# handle ".
unfoldable pub digits : Text → Text
digits [] = []
digits (c ∷ s) = let rest = digits s in if leb 48 c && leb c 57 then c ∷ rest else []

unfoldable pub handle_of : Text → Option Text
unfolding has_prefix digits
handle_of [] = none
handle_of (c ∷ s) =
    let later = handle_of s in
    let here = digits (drop 9 (c ∷ s)) in
    if has_prefix (c ∷ s) (codes "# handle ") && not (here == []) then some here else later

-- `strings.SplitSeq` at newlines.
unfoldable pub lines : Text → List Text
lines [] = [] ∷ []
lines (c ∷ s) = let rest = lines s in if nat_test c 10 then [] ∷ rest else push_char c rest

abbrev pub is_tagged : ℕ → Text → Bool
unfolding decimal has_word
is_tagged id line = has_word line (accept_tag id) || has_word line (deny_tag id)

module _ {K : Type 0} (nft : Nft K) where
  abbrev pub ensure_filter_input : K → K × Bool
  ensure_filter_input k = if nft.list_table k then (k, true) else elim (nft.add_table k) [
    | none ↦ (k, false)
    | some j ↦ elim (nft.add_chain j) [ none ↦ (j, false) | some i ↦ (i, true) ]
  ]

  -- The rules one after the other, up to the first that fails.
  unfoldable pub add_all : List Rule → K → K × Bool
  add_all [] k = (k, true)
  add_all (r ∷ rs) k = elim (nft.add_rule r k) [ none ↦ (k, false) | some j ↦ add_all rs j ]

  unfoldable pub apply : PortAcl → K → K × Bool
  unfolding add_all
  apply acl k =
      let (j, is_ready) = ensure_filter_input k in
      if is_ready then add_all (acl_rules acl) j else (j, false)

  abbrev pub delete_handle : Option Text → K → K
  delete_handle none k = k
  delete_handle (some h) k = elim (nft.delete_rule h k) [ none ↦ k | some j ↦ j ]

  unfoldable pub remove_lines : ℕ → List Text → K → K
  unfolding decimal has_word handle_of
  remove_lines id [] k = k
  remove_lines id (line ∷ more) k =
      remove_lines id more (if is_tagged id line then delete_handle (handle_of line) k else k)

  -- `remove`.
  unfoldable pub remove : ℕ → K → K
  unfolding remove_lines lines
  remove id k = elim (nft.list_chain k) [ none ↦ k | some out ↦ remove_lines id (lines out) k ]

  -- The service: its table and the kernel. A statement of the database that fails is `is_down`.
  abbrev pub applied : Store → K × Bool → (Store × K) × Option Refusal
  applied s (k, true) = ((s, k), none)
  applied s (k, false) = ((s, k), some nft_failed)

  abbrev pub store_and_apply : PortAcl → Bool → Store → K → (Store × K) × Option Refusal
  unfolding upsert apply
  store_and_apply acl is_down s k =
      if is_down
      then ((s, k), some database)
      else (let (stored, t) = upsert acl s in applied t (apply stored k))

  abbrev pub expose_sources :
      ℕ → Text → Text → Bool → Refusal ⊎ List Text → Store → K → (Store × K) × Option Refusal
  unfolding upsert apply
  expose_sources port protocol remark is_down (inl e) s k = ((s, k), some e)
  expose_sources port protocol remark is_down (inr cidrs) s k =
      store_and_apply
        (record { id = 0; port = port; protocol = protocol; cidrs = cidrs; remark = remark })
        is_down s k

  -- `Expose`.
  unfoldable pub expose :
      (is_cidr is_ip : Text → Bool)
      → ℕ
      → Text
      → List Text
      → Text
      → Bool
      → Store
      → K
      → (Store × K) × Option Refusal
  unfolding trim_space normalize_cidrs upsert apply
  expose is_cidr is_ip port protocol cidrs remark is_down s k =
      let proto = clean_protocol protocol in
      if not (proto == codes "tcp") && not (proto == codes "udp")
      then ((s, k), some bad_protocol)
      else if ltb port 1 || ltb 65535 port
      then ((s, k), some bad_port)
      else expose_sources port proto remark is_down (normalize_cidrs is_cidr is_ip cidrs) s k

  -- `Revoke`.
  abbrev pub revoke_row :
      ℕ → Text → Bool → Option PortAcl → Store → K → (Store × K) × Option Refusal
  unfolding remove
  revoke_row port protocol delete_down none s k = ((s, k), none)
  revoke_row port protocol delete_down (some row) s k =
      if delete_down then ((s, remove row.id k), some database) else (
        (record s { rows = keep (λ r. not (is_row port protocol r)) s.rows }, remove row.id k),
        none,
      )

  unfoldable pub revoke :
      ℕ → Text → (get_down delete_down : Bool) → Store → K → (Store × K) × Option Refusal
  unfolding trim_space find_row remove
  revoke port protocol get_down delete_down s k =
      if get_down
      then ((s, k), some database)
      else (let proto = clean_protocol protocol in
          revoke_row port proto delete_down (find_row port proto s.rows) s k)

  unfoldable pub remove_all : List PortAcl → K → K
  unfolding remove
  remove_all [] k = k
  remove_all (row ∷ rows) k = remove_all rows (remove row.id k)

  unfoldable pub apply_all : List PortAcl → K → K × Bool
  unfolding apply
  apply_all [] k = (k, true)
  apply_all (row ∷ rows) k =
      let (j, is_fine) = apply row k in
      let rest = apply_all rows j in if is_fine then rest else (j, false)

  -- `ReapplyAll`.
  unfoldable pub reapply_all : Store → K → K × Bool
  unfolding remove_all apply_all
  reapply_all s k = apply_all s.rows (remove_all s.rows k)
