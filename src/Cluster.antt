-- ===== src/Cluster.antt =====
-- internal/cluster/membership.go: which of the live nodes is responsible for a workload. Scores are the hashes of a
-- workload with the ID of a node, by a package that the code only calls: they are a parameter.
pub mod Responsible
use runkit.Prelude.{
  ltb, leb, ◌==◌, if◌then◌else◌, ltb→lt, lt→ltb, leb→le, le→leb, lt→leb, ==_iff, ==_refl, tests,
  Bool-cases, Option-cases, length, get_elem?, take, drop, replicate, length-append,
  take-append-drop, length-drop, length-take, drop-append_le, drop-append_add,
  get_elem?-append_left, get_elem?-append_right, get_elem?_total, get_elem?-take, filter,
  filter-append, filter-filter, filter-eq, length-filter-le, All, All-append, All-replicate,
  All-filter, All-imp, All-left, All-right, has, u64_mod, inc64, inc64-eq-suc, ℕ, zero, suc, ◌+◌,
  ◌-◌, ◌*◌, ◌/◌, ◌%◌, ◌^◌, ◌≤◌, ◌<◌, min, max, ◌≡◌, refl, sym, ap, ◌∙◌, subst, ◌≢◌, ◌↔◌, ◌⊎◌, inl,
  inr, Bool, true, false, not, ◌&&◌, ◌||◌, Option, none, some, List, [], ◌∷◌, ◌++◌, map, append-nil,
  append_assoc, arith,
}

pub record Membership : Type 0 where
  pub node_id : ℕ
  pub is_live : Bool
  pub peers : List ℕ

-- A peer takes the workload from the local node if its score is higher, or the same and its ID is lower.
abbrev pub outranks : (ℕ → ℕ) → ℕ → ℕ → Bool
outranks score peer local =
    ltb (score local) (score peer) || (score peer == score local && ltb peer local)

-- The loop over the peers.
abbrev pub is_first : (ℕ → ℕ) → ℕ → List ℕ → Bool
is_first score local [] = true
is_first score local (p ∷ ps) = if outranks score p local then false else is_first score local ps

-- Membership.LocalNodeIsResponsibleFor; `score` is for the workload, and `none` is a nil membership.
unfoldable pub is_responsible : (ℕ → ℕ) → Option Membership → Bool
is_responsible score none = false
is_responsible score (some m) = if not m.is_live then false else is_first score m.node_id m.peers
