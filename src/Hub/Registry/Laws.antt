-- ===== src/Hub/Registry/Laws.antt =====
-- internal/hub/registry.go: what a registry that `NewRegistry` has built knows.
use mathlib.Core.List.{Memᴰ, append-nil, append_assoc}
use dev_board.Prelude.{
  ℕ, ◌≤◌, ◌≡◌, refl, subst, ◌⊎◌, inl, inr, String, len, str_eq, eq_iff, true, false, Option, none,
  some, List, [], ◌∷◌, ◌++◌, map, All, All-map, All-mem, ◌==◌, ==_iff, ok, Result-cases, arith,
  Bool-cases, if◌then◌else◌,
}
use dev_board.Prelude.Dict.{Dict, lookup, insert, lookup-insert, lookup-insert_self}
use dev_board.Hub.Registry.{
  NodeConfig, Node, Registry, validate_registry_entry, min_token_length, max_token_length,
  has_digest, node_of, register, register_all, new_registry, scan, authenticate, registry_lookup,
}

-- A node under a new key is scanned last.
scan-insert :
    (digest : ℕ) (k : String) (n : Node) (m : Option Node) (nodes : Dict Node)
    → lookup k nodes ≡ none
    → scan digest m (insert k n nodes)
      ≡ (if digest == n.token_digest then some n else scan digest m nodes)
unfolding scan lookup insert
scan-insert digest k n m [] h = refl
scan-insert digest k n m ((j, x) ∷ nodes) h =
    ground (arith, scan-insert digest k n (if digest == x.token_digest then some x else m) nodes)

-- What the scan finds is the start value or a node with the digest.
scan_found {ℓ} :
    (P : Node → Type ℓ) (digest : ℕ) (n : Node) (m : Option Node) (nodes : Dict Node)
    → All (λ (p : String × Node). P p.1) nodes
    → scan digest m nodes ≡ some n
    → (m ≡ some n) ⊎ (P n × (digest ≡ n.token_digest))
unfolding scan
scan_found P digest n m [] a e = inl e
scan_found P digest n m ((j, x) ∷ nodes) a e =
    elim (scan_found P digest n (if digest == x.token_digest then some x else m) nodes a.1 e) [
      | inr found ↦ inr found
      | inl here ↦ elim (Bool-cases (digest == x.token_digest)) [
        | inl t ↦ inr (subst P (cc) a.0, cc (t, (==_iff digest x.token_digest).0 t))
        | inr f ↦ inl (cc)
      ]
    ]

validate-length :
    (entry : NodeConfig)
    → validate_registry_entry entry ≡ ok tt
    → (min_token_length ≤ len entry.token) × (len entry.token ≤ max_token_length)
unfolding validate_registry_entry
validate-length entry h = ground arith

All-insert {ℓ} :
    (P : Node → Type ℓ) (k : String) (n : Node) (nodes : Dict Node)
    → P n
    → All (λ (p : String × Node). P p.1) nodes
    → All (λ (p : String × Node). P p.1) (insert k n nodes)
unfolding insert
All-insert P k n [] h a = (h, tt)
All-insert P k n ((j, x) ∷ nodes) h a = elim (Bool-cases (str_eq j k)) [
  | inl e ↦ rw (e, insert) (h, a.1)
  | inr e ↦ rw (e, insert) (a.0, All-insert P k n nodes h a.1)
]

module _ (sha256 : String → ℕ) where
  -- The entry has been registered.
  record Known (entry : NodeConfig) (r : Registry) (seen : List ℕ) : Type 0 where
    scanned : scan (sha256 entry.token) none r.nodes ≡ some (node_of sha256 entry)
    digested : has_digest (sha256 entry.token) seen ≡ true
    stored : lookup entry.node_id r.nodes ≡ some (node_of sha256 entry)

  -- What a round of the loop that registers `entry` does.
  record Registered (r : Registry) (seen : List ℕ) (entry : NodeConfig) (r' : Registry)
      (seen' : List ℕ) : Type 0 where
    new_id : lookup entry.node_id r.nodes ≡ none
    new_digest : has_digest (sha256 entry.token) seen ≡ false
    long_enough : min_token_length ≤ len entry.token
    short_enough : len entry.token ≤ max_token_length
    extended : r' ≡ record {
      order = r.order ++ entry.node_id ∷ [];
      nodes = insert entry.node_id (node_of sha256 entry) r.nodes;
    }
    noted : seen' ≡ sha256 entry.token ∷ seen

  register-Registered :
      (r : Registry) (seen : List ℕ) (entry : NodeConfig) (r' : Registry) (seen' : List ℕ)
      → register sha256 r seen entry ≡ ok (r', seen')
      → Registered r seen entry r' seen'
  unfolding register
  register-Registered r seen entry r' seen' e = ground (arith, validate-length entry)

  -- The registered entry is known.
  Registered-Known :
      {r r' : Registry} {seen seen' : List ℕ} {entry : NodeConfig}
      → Registered r seen entry r' seen'
      → Known entry r' seen'
  unfolding has_digest
  Registered-Known {r} {r'} {seen} {seen'} {entry} g =
      rw (g.extended, g.noted)
        (record {
          scanned = ground (
            arith,
            scan-insert (sha256 entry.token) entry.node_id (node_of sha256 entry) none r.nodes
                g.new_id,
          );
          digested = ground arith;
          stored = lookup-insert_self entry.node_id (node_of sha256 entry) r.nodes;
        })

  -- What was known stays known.
  Registered-keeps :
      {r r' : Registry} {seen seen' : List ℕ} {entry : NodeConfig} (old : NodeConfig)
      → Registered r seen entry r' seen'
      → Known old r seen
      → Known old r' seen'
  unfolding has_digest
  Registered-keeps {r} {r'} {seen} {seen'} {entry} old g k =
      rw (g.extended, g.noted)
        (record {
          scanned = ground (
            arith,
            scan-insert (sha256 old.token) entry.node_id (node_of sha256 entry) none r.nodes
                g.new_id,
            k.scanned,
            k.digested,
            g.new_digest,
          );
          digested = ground (arith, k.digested);
          stored = ground (
            arith,
            lookup-insert entry.node_id old.node_id (node_of sha256 entry) r.nodes,
            eq_iff entry.node_id old.node_id,
            k.stored,
            g.new_id,
          );
        })

  -- The rest of the loop keeps what is known, for some list of digests.
  abbrev Kept : NodeConfig → Registry → Type 0
  Kept old r = (seen : List ℕ) × Known old r seen

  register_all-Kept :
      (r : Registry) (seen : List ℕ) (entries : List NodeConfig) (r' : Registry)
      → register_all sha256 r seen entries ≡ ok r'
      → ((old : NodeConfig) → Known old r seen → Kept old r')
        × All
            (λ entry.
              Kept entry r'
              × (min_token_length ≤ len entry.token)
              × (len entry.token ≤ max_token_length))
            entries
        × (r'.order ≡ r.order ++ map (λ entry. entry.node_id) entries)
  unfolding register_all
  register_all-Kept r seen [] r' e = (
    (λ old k. (seen, subst (λ x. Known old x seen) (cc) k)),
    tt,
    ground (arith, append-nil r.order),
  )
  register_all-Kept r seen (entry ∷ entries) r' e =
      elim (Result-cases (register sha256 r seen entry)) [
        | inr (x, f) ↦ absurd (cc (rw (f, register_all) at e))
        | inl ((r₁, seen₁), f) ↦
            let g = register-Registered r seen entry r₁ seen₁ f in
            let (keep, rest, order) =
              register_all-Kept r₁ seen₁ entries r' (rw (f, register_all) at e) in
            (
              (λ old k. keep old (Registered-keeps old g k)),
              ((keep entry (Registered-Known g), g.long_enough, g.short_enough), rest),
              ground (
                arith,
                g.extended,
                append_assoc r.order (entry.node_id ∷ [])
                    (map (λ (x : NodeConfig). x.node_id) entries),
              ),
            )
      ]

  -- A registry that was built from `entries` lists their ids in their order; the token of each entry
  -- authenticates as the node of that entry, and its id is looked up as that node.
  pub new_registry-entries :
      (entries : List NodeConfig) (r : Registry)
      → new_registry sha256 entries ≡ ok r
      → (r.order ≡ map (λ entry. entry.node_id) entries)
        × All
            (λ entry.
              (authenticate sha256 r entry.token ≡ some (node_of sha256 entry))
              × (registry_lookup r entry.node_id ≡ some (node_of sha256 entry)))
            entries
  unfolding new_registry
  new_registry-entries entries r e =
      let (_, known, order) = register_all-Kept _ [] entries r e in
      (
        order,
        All-map (λ entry ((seen, k), lo, hi). known_node entry k.scanned k.stored lo hi) entries
            known,
      )
    where
      known_node :
          (entry : NodeConfig)
          → scan (sha256 entry.token) none r.nodes ≡ some (node_of sha256 entry)
          → lookup entry.node_id r.nodes ≡ some (node_of sha256 entry)
          → min_token_length ≤ len entry.token
          → len entry.token ≤ max_token_length
          → (authenticate sha256 r entry.token ≡ some (node_of sha256 entry))
            × (registry_lookup r entry.node_id ≡ some (node_of sha256 entry))
      known_node entry c l lo hi =
          (unfold authenticate in ground arith, unfold registry_lookup in l)

  -- Every node of the registry has the property.
  register_all-nodes :
      (P : Node → Type 0) (r : Registry) (seen : List ℕ) (entries : List NodeConfig) (r' : Registry)
      → register_all sha256 r seen entries ≡ ok r'
      → All (λ entry. P (node_of sha256 entry)) entries
      → All (λ (p : String × Node). P p.1) r.nodes
      → All (λ (p : String × Node). P p.1) r'.nodes
  unfolding register_all
  register_all-nodes P r seen [] r' e h a =
      let same : r ≡ r' = cc in
      subst (λ (x : Registry). All (λ (p : String × Node). P p.1) x.nodes) same a
  register_all-nodes P r seen (entry ∷ entries) r' e h a =
      elim (Result-cases (register sha256 r seen entry)) [
        | inr (x, f) ↦ absurd (cc (rw (f, register_all) at e))
        | inl ((r₁, seen₁), f) ↦
            let g = register-Registered r seen entry r₁ seen₁ f in
            register_all-nodes P r₁ seen₁ entries r' (rw (f, register_all) at e) h.1
              (rw g.extended (All-insert P entry.node_id (node_of sha256 entry) r.nodes h.0 a))
      ]

  -- Whoever authenticates is the node of a registered entry whose token has the digest of the token shown.
  pub authenticate_sound :
      (entries : List NodeConfig) (r : Registry) (token : String) (n : Node)
      → new_registry sha256 entries ≡ ok r
      → authenticate sha256 r token ≡ some n
      → (entry : NodeConfig) × Memᴰ entry entries
        × (n ≡ node_of sha256 entry)
        × (sha256 entry.token ≡ sha256 token)
  unfolding new_registry authenticate
  authenticate_sound entries r token n e a =
      elim (scan_found IsEntry (sha256 token) n none r.nodes
        (register_all-nodes IsEntry _ [] entries r e
          (All-map (λ x m. (x, m, refl)) entries (All-mem entries)) tt)
        (ground arith)) [ inl f ↦ absurd (cc f) | inr ((x, m, f), d) ↦ (x, m, f, cc) ]
    where
      IsEntry : Node → Type 0
      IsEntry n = (x : NodeConfig) × Memᴰ x entries × (n ≡ node_of sha256 x)
