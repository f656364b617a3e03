-- ===== src/Cluster/Responsible.antt =====
-- Rendezvous hashing in internal/cluster/membership.go, between nodes that see the same live nodes.
use runkit.Prelude.{
  ltb, ◌==◌, ==_iff, Bool-cases, filter, has, ℕ, ◌≡◌, refl, sym, ap, ◌∙◌, subst, inl, inr, Bool,
  true, false, not, ◌&&◌, ◌||◌, Option, some, List, [], ◌∷◌, arith,
}
use runkit.Cluster.{Membership, outranks, is_first, is_responsible}

-- The membership of a node that sees all of some live nodes, itself among them.
abbrev pub sees : List ℕ → ℕ → Option Membership
sees nodes id =
    some (record { node_id = id; is_live = true; peers = filter (λ p. not (p == id)) nodes })

module _ (score : ℕ → ℕ) where
  outranks_total : (a b : ℕ) → outranks score a b ≡ false → outranks score b a ≡ false → a ≡ b
  outranks_total a b p q = total (score a) (score b) p q
    where
      total :
          (x y : ℕ)
          → (ltb y x || (x == y && ltb a b)) ≡ false
          → (ltb x y || (y == x && ltb b a)) ≡ false
          → a ≡ b
      total x y p q = ground arith

  is_first-peer :
      (local p : ℕ) (ps : List ℕ)
      → is_first score local ps ≡ true
      → has ps p ≡ true
      → outranks score p local ≡ false
  is_first-peer local p [] h m = cc
  is_first-peer local p (q ∷ qs) h m = elim (Bool-cases (outranks score q local)) [
    | inl higher ↦ cc (sym (rw higher at h))
    | inr lower ↦ elim (Bool-cases (q == p)) [
      | inl same ↦ subst (λ n. outranks score n local ≡ false) ((==_iff q p).0 same) lower
      | inr other' ↦ is_first-peer local p qs (rw lower at h) (sym (rw other' refl) ∙ m)
    ]
  ]

  -- The highest of some nodes.
  abbrev pub best : ℕ → List ℕ → ℕ
  best x [] = x
  best x (y ∷ ys) = elim (outranks score y x) [ true ↦ best y ys | false ↦ best x ys ]

  has-filter :
      (id p : ℕ) (ns : List ℕ)
      → has (filter (λ n. not (n == id)) ns) p ≡ (has ns p && not (p == id))
  has-filter id p [] = refl
  has-filter id p (n ∷ ns) = elim (Bool-cases (n == id)) [
    | inl h ↦ rw h (has-filter id p ns ∙ skip (has ns p) h)
    | inr h ↦ rw h (ap (λ b. (n == p) || b) (has-filter id p ns) ∙ keep (has ns p) h)
  ]
    where
      skip : (c : Bool) → (n == id) ≡ true → (c && not (p == id)) ≡ ((n == p || c) && not (p == id))
      skip c h = ground arith

      keep :
          (c : Bool)
          → (n == id) ≡ false
          → (n == p || (c && not (p == id))) ≡ ((n == p || c) && not (p == id))
      keep c h = ground arith

  -- Whatever the hashes of a workload with the nodes are, if two of some live nodes see exactly
  -- these nodes live, in whatever order each holds them, and LocalNodeIsResponsibleFor answers
  -- true on both, then they are the same node.
  pub is_responsible_unique :
      (nodes others : List ℕ) (a b : ℕ)
      → ((p : ℕ) → has nodes p ≡ has others p)
      → has nodes a ≡ true
      → has nodes b ≡ true
      → is_responsible score (sees nodes a) ≡ true
      → is_responsible score (sees others b) ≡ true
      → a ≡ b
  unfolding is_responsible
  is_responsible_unique nodes others a b same ma mb ra rb = elim (Bool-cases (a == b)) [
    | inl equal ↦ (==_iff a b).0 equal
    | inr apart ↦
        outranks_total a b
          (is_first-peer b a (filter (λ p. not (p == b)) others) rb
            (has-filter b a others ∙ rw (sym (same a), ma, apart) refl))
          (is_first-peer a b (filter (λ p. not (p == a)) nodes) ra
            (has-filter a b nodes ∙ rw (mb, flip apart) refl))
  ]
    where
      flip : (a == b) ≡ false → (b == a) ≡ false
      flip h = ground arith
