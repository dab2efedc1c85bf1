-- ===== src/Topology/Gateways.antt =====
-- src/core/topology.rs: the gateway that `choose_connected_gateway_index` chooses.
use mixnet.Base.{
  subst, sym, ap, ◌∙◌, if◌then◌else◌, ℕ, ◌≡◌, ◌≢◌, refl, Bool, true, false, List, [], ◌∷◌, Option,
  none, some, Result, ok, err, ◌==◌, inl, inr, Bool-cases, eq-or-ne, eq→==, ne→not-==,
}
use mathlib.Core.Bool.{true≢false}
use mixnet.Sphinx.{MixnodeIndex}
use mixnet.Rng.{Rng, elem}
use mixnet.Topology.{TopologyErr, no_connected_gateway_mixnodes}
use mixnet.Topology.RouteGenerator.{
  RouteGenerator, choose_connected_gateway_index, choose_other, choose_any, choose_gateway,
}

module _ (r : Rng) where
  -- A choice among the given indices.
  abbrev pub Chooses : List MixnodeIndex → Result MixnodeIndex TopologyErr × r.State → Type 0
  Chooses indices answer =
      (i : MixnodeIndex) × (s' : r.State) × (answer ≡ (ok i, s')) × (elem i indices ≡ true)

  choose_any-Chooses :
      (s : r.State) (x : ℕ) (xs : List ℕ) → Chooses (x ∷ xs) (choose_any r s (x ∷ xs))
  unfolding choose_any
  choose_any-Chooses s x xs =
      let (a, e, m) = r.choose_elem s x xs in
      rw (choose_any, e) (a, (r.choose s (x ∷ xs)).1, refl, m)

  elem-cons : (i x : ℕ) (xs : List ℕ) → elem i xs ≡ true → elem i (x ∷ xs) ≡ true
  elem-cons i x xs h = elim (Bool-cases (i == x)) [ inl e ↦ rw (e) | inr e ↦ rw (e, h) ]

  elem-first : (x : ℕ) (xs : List ℕ) → elem x (x ∷ xs) ≡ true
  elem-first x xs = rw (eq→== x x refl)

  if-elem :
      (b : Bool) (x y : ℕ) (xs : List ℕ)
      → elem x xs ≡ true
      → elem y xs ≡ true
      → elem (if b then x else y) xs ≡ true
  if-elem true x y xs h k = h
  if-elem false x y xs h k = k

  choose_other_lem :
      (s : r.State) (x first a : ℕ) (rest : List ℕ)
      → (r.choose s rest).0 ≡ some a
      → (choose_other r s x first rest).0 ≡ (if a == x then first else a)
  unfolding choose_other
  choose_other_lem s x first a rest e = rw (choose_other, e)

  choose_other_only : (s : r.State) (x first : ℕ) → (choose_other r s x first []).0 ≡ first
  unfolding choose_other
  choose_other_only s x first = rw (choose_other, r.choose_empty s)

  choose_other-elem :
      (s : r.State) (x first : ℕ) (rest : List ℕ)
      → elem (choose_other r s x first rest).0 (first ∷ rest) ≡ true
  choose_other-elem s x first [] =
      subst (λ i. elem i (first ∷ []) ≡ true) (sym (choose_other_only s x first))
        (elem-first first [])
  choose_other-elem s x first (second ∷ rest) =
      let (a, e, m) = r.choose_elem s second rest in
      subst (λ i. elem i (first ∷ second ∷ rest) ≡ true)
        (sym (choose_other_lem s x first a (second ∷ rest) e))
        (if-elem (a == x) first a (first ∷ second ∷ rest) (elem-first first (second ∷ rest))
          (elem-cons a first (second ∷ rest) m))

  elem-ne : (x y : ℕ) (xs : List ℕ) → elem x xs ≡ true → elem y xs ≡ false → x ≢ y
  elem-ne x y xs h k e = true≢false (sym h ∙ ap (λ i. elem i xs) e ∙ k)

  -- Of two or more the one to avoid is not chosen.
  choose_other-differs :
      (s : r.State) (x first second : ℕ) (rest : List ℕ)
      → elem first (second ∷ rest) ≡ false
      → (choose_other r s x first (second ∷ rest)).0 ≢ x
  choose_other-differs s x first second rest single h =
      let (a, e, m) = r.choose_elem s second rest in
      let value = choose_other_lem s x first a (second ∷ rest) e in
      elim (eq-or-ne a x) [
        | inl same ↦
            let first_x : first ≡ x = sym (value ∙ rw (eq→== a x same)) ∙ h in
            elem-ne a first (second ∷ rest) m single (same ∙ sym first_x)
        | inr other ↦ other (sym (value ∙ rw (ne→not-== a x other)) ∙ h)
      ]

  choose_gateway-Chooses :
      (s : r.State) (first : ℕ) (rest : List ℕ) (try_exclude_index : Option ℕ)
      → Chooses (first ∷ rest) (choose_gateway r s (first ∷ rest) try_exclude_index)
  unfolding choose_gateway
  choose_gateway-Chooses s first rest none = choose_any-Chooses s first rest
  choose_gateway-Chooses s first rest (some x) = elim (Bool-cases (elem x (first ∷ rest))) [
    | inl m ↦ rw (m) (
      (choose_other r s x first rest).0,
      (choose_other r s x first rest).1,
      refl,
      choose_other-elem s x first rest,
    )
    | inr n ↦ rw (n) (choose_any-Chooses s first rest)
  ]

  choose_gateway-differs :
      (s : r.State) (first second : ℕ) (rest : List ℕ) (x i : ℕ) (s' : r.State)
      → elem first (second ∷ rest) ≡ false
      → choose_gateway r s (first ∷ second ∷ rest) (some x) ≡ (ok i, s')
      → i ≢ x
  unfolding choose_gateway
  choose_gateway-differs s first second rest x i s' single e =
      elim (Bool-cases (elem x (first ∷ second ∷ rest))) [
        | inl m ↦
            let chosen = choose_other r s x first (second ∷ rest) in
            let value : choose_gateway r s (first ∷ second ∷ rest) (some x)
                ≡ (ok chosen.0, chosen.1) =
              rw (choose_gateway, m) in
            let same : chosen.0 ≡ i = cc in
            λ h. choose_other-differs s x first second rest single (same ∙ h)
        | inr n ↦
            let (a, s₁, value, m) = choose_any-Chooses s first (second ∷ rest) in
            let value' : choose_gateway r s (first ∷ second ∷ rest) (some x)
                ≡ choose_any r s (first ∷ second ∷ rest) =
              rw (choose_gateway, n) in
            let same : a ≡ i = cc in λ h. elem-ne a x (first ∷ second ∷ rest) m n (same ∙ h)
      ]

  choose_gateway-none :
      (s : r.State) (o : Option ℕ) → (choose_gateway r s [] o).0 ≡ err no_connected_gateway_mixnodes
  unfolding choose_gateway choose_any
  choose_gateway-none s none = rw (choose_any, r.choose_empty s)
  choose_gateway-none s (some x) = rw (choose_any, r.choose_empty s)

  module _ {X : Type 0} where
    -- With a connected gateway the answer is one of the connected ones, whatever is to be avoided.
    pub gateway-Chooses :
        (g : RouteGenerator X) (s : r.State) (first : ℕ) (rest : List ℕ)
        (try_exclude_index : Option ℕ)
        → g.connected_gateway_indices ≡ first ∷ rest
        → Chooses g.connected_gateway_indices
            (choose_connected_gateway_index r g s try_exclude_index)
    unfolding choose_connected_gateway_index
    gateway-Chooses g s first rest try_exclude_index h =
        subst (λ is. Chooses is (choose_gateway r s is try_exclude_index)) (sym h)
          (choose_gateway-Chooses s first rest try_exclude_index)

    -- With two or more different connected gateways the index to avoid is never the answer.
    pub gateway-differs :
        (g : RouteGenerator X) (s : r.State) (first second : ℕ) (rest : List ℕ) (x i : ℕ)
        (s' : r.State)
        → g.connected_gateway_indices ≡ first ∷ second ∷ rest
        → elem first (second ∷ rest) ≡ false
        → choose_connected_gateway_index r g s (some x) ≡ (ok i, s')
        → i ≢ x
    unfolding choose_connected_gateway_index
    gateway-differs g s first second rest x i s' h single e =
        choose_gateway-differs s first second rest x i s' single
          (sym (ap (λ is. choose_gateway r s is (some x)) h) ∙ e)

    -- Without a connected gateway the answer is an error.
    pub gateway_none :
        (g : RouteGenerator X) (s : r.State) (try_exclude_index : Option ℕ)
        → g.connected_gateway_indices ≡ []
        → (choose_connected_gateway_index r g s try_exclude_index).0
          ≡ err no_connected_gateway_mixnodes
    unfolding choose_connected_gateway_index
    gateway_none g s try_exclude_index h =
        ap (λ is. (choose_gateway r s is try_exclude_index).0) h
        ∙ choose_gateway-none s try_exclude_index
