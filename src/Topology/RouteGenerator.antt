-- ===== src/Topology/RouteGenerator.antt =====
-- src/core/topology.rs: the choices of `RouteGenerator`. `none` is a panic, and an answer comes with
-- the next state of the random generator.
use mixnet.Base.{
  ℕ, ◌+◌, ◌%◌, ◌^◌, List, [], ◌∷◌, Option, none, some, Result, ok, err, leb, ◌==◌, if◌then◌else◌,
  length, checked_sub, ◌>>=◌,
}
use mixnet.Sphinx.{MixnodeIndex, PeerId, try_from}
use mixnet.Rng.{Rng, elem}
use mixnet.Topology.{
  Topology, mixnode, non_mixnode, TopologyErr, too_few_mixnodes, no_connected_gateway_mixnodes,
}

pub record RouteGenerator (X : Type 0) : Type 0 where
  pub topology : Topology X
  pub local_peer_id : PeerId
  pub connected_gateway_indices : List MixnodeIndex

-- The loop of `choose_mixnode_index`; the indices are u16.
unfoldable pub skip_excluded : ℕ → List MixnodeIndex → ℕ
skip_excluded chosen [] = chosen
skip_excluded chosen (exclude_index ∷ exclude_indices) =
    skip_excluded (if leb exclude_index chosen then (chosen + 1) % 2 ^ 16 else chosen)
      exclude_indices

unfoldable pub one_index : List MixnodeIndex → List MixnodeIndex
one_index (index ∷ []) = index ∷ []
one_index _ = []

abbrev pub Answer : Rng → Type 0
Answer r = Option (Result MixnodeIndex TopologyErr × r.State)

module _ (r : Rng) {X : Type 0} where
  unfoldable pub choose_mixnode_index : RouteGenerator X → r.State → List MixnodeIndex → Answer r
  choose_mixnode_index g s exclude_indices = do
    allowed ← checked_sub (length g.topology.mixnodes) (length exclude_indices)
    let num_allowed = allowed % 2 ^ 16
    if num_allowed == 0 then some (err too_few_mixnodes, s) else (do
      let drawn = r.gen_range s num_allowed
      index ← try_from (skip_excluded drawn.0 exclude_indices)
      some (ok index, drawn.1))

  -- What `choose_destination_index` excludes: the local node, or the only connected gateway.
  unfoldable pub excluded_destination : RouteGenerator X → List MixnodeIndex
  unfolding one_index
  excluded_destination g = elim (g.topology.local_node) [
    | mixnode index ↦ index ∷ []
    | non_mixnode indices ↦ one_index g.connected_gateway_indices
  ]

  unfoldable pub choose_destination_index : RouteGenerator X → r.State → Answer r
  choose_destination_index g s = choose_mixnode_index g s (excluded_destination g)

module _ (r : Rng) where
  -- One of the others, or the first one in place of the index to exclude; or the only one.
  unfoldable pub choose_other :
      r.State → MixnodeIndex → MixnodeIndex → List MixnodeIndex → MixnodeIndex × r.State
  choose_other s try_exclude_index first rest =
      let choice = r.choose s rest in
      elim (choice.0) [
        | none ↦ (first, choice.1)
        | some chosen ↦ (if chosen == try_exclude_index then first else chosen, choice.1)
      ]

  unfoldable pub choose_any :
      r.State → List MixnodeIndex → Result MixnodeIndex TopologyErr × r.State
  choose_any s indices =
      let choice = r.choose s indices in
      elim (choice.0) [
        | none ↦ (err no_connected_gateway_mixnodes, choice.1)
        | some chosen ↦ (ok chosen, choice.1)
      ]

  -- Among the connected gateways, with an index that is avoided if it can be.
  unfoldable pub choose_gateway :
      r.State → List MixnodeIndex → Option MixnodeIndex → Result MixnodeIndex TopologyErr × r.State
  choose_gateway s indices none = choose_any s indices
  choose_gateway s [] (some try_exclude_index) = choose_any s []
  choose_gateway s (first ∷ rest) (some try_exclude_index) =
      if elem try_exclude_index (first ∷ rest)
      then (let chosen = choose_other s try_exclude_index first rest in (ok chosen.0, chosen.1))
      else choose_any s (first ∷ rest)

module _ (r : Rng) {X : Type 0} where
  unfoldable pub choose_connected_gateway_index :
      RouteGenerator X → r.State → Option MixnodeIndex → Result MixnodeIndex TopologyErr × r.State
  choose_connected_gateway_index g s try_exclude_index =
      choose_gateway r s g.connected_gateway_indices try_exclude_index
