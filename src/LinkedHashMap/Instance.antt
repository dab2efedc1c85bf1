-- ===== src/LinkedHashMap/Instance.antt =====
-- The association lists with distinct keys meet the interface of hashlink's `LinkedHashMap`, so
-- what is proved over it can be run on examples.
use mixnet.Base.{
  ◌≡◌, refl, Option, none, some, List, [], ◌∷◌, ◌++◌, inl, inr, lookup, length, Option-cases,
}
use mixnet.LinkedHashMap.{LinkedHashMap}
use mixnet.LinkedHashMap.Assoc.{
  remove, replace, Distinct, lookup-remove_self, remove-Distinct, replace-Distinct, append-Distinct,
}

module _ {K : Type 0} (dec : Discrete K) (V : Type 0) where
  abbrev pub Entries : Type 0
  Entries = (es : List (K × V)) × Distinct dec es

  abbrev pub push_back : List (K × V) → K → V → List (K × V)
  push_back es k v = elim (lookup dec k es) [ none ↦ es ++ ((k, v) ∷ []) | some _ ↦ es ]

  pub push_back-vacant :
      (es : List (K × V)) (k : K) (v : V)
      → lookup dec k es ≡ none
      → push_back es k v ≡ es ++ ((k, v) ∷ [])
  push_back-vacant es k v h = rw (h, push_back)

  pub push_back-Distinct :
      (es : List (K × V)) (k : K) (v : V) → Distinct dec es → Distinct dec (push_back es k v)
  push_back-Distinct es k v d = elim (Option-cases (lookup dec k es)) [
    | inl h ↦ rw (h, push_back) (append-Distinct dec k v es d h)
    | inr (w, h) ↦ rw (h, push_back) d
  ]

  abbrev pub move_back : List (K × V) → K → List (K × V)
  move_back es k = elim (lookup dec k es) [ none ↦ es | some v ↦ remove dec k es ++ ((k, v) ∷ []) ]

  pub move_back-occupied :
      (es : List (K × V)) (k : K) (v : V)
      → lookup dec k es ≡ some v
      → move_back es k ≡ remove dec k es ++ ((k, v) ∷ [])
  move_back-occupied es k v h = rw (h, move_back)

  pub move_back-Distinct :
      (es : List (K × V)) (k : K) → Distinct dec es → Distinct dec (move_back es k)
  move_back-Distinct es k d = elim (Option-cases (lookup dec k es)) [
    | inl h ↦ rw (h, move_back) d
    | inr (w, h) ↦
        rw (h, move_back)
          (append-Distinct dec k w (remove dec k es) (remove-Distinct dec k es d)
            (lookup-remove_self dec k es d))
  ]

  abbrev pub pop_entries : (es : List (K × V)) → Distinct dec es → Option ((K × V) × Entries)
  pop_entries [] d = none
  pop_entries ((k, v) ∷ es) d = some ((k, v), (es, d.1))

  pub pop_entries_empty :
      (es : List (K × V)) (d : Distinct dec es) → es ≡ [] → pop_entries es d ≡ none
  pop_entries_empty [] d h = refl
  pop_entries_empty (e ∷ es) d h = absurd (cc)

  pub pop_entries_cons :
      (es : List (K × V)) (d : Distinct dec es) (f : K × V) (fs : List (K × V))
      → es ≡ f ∷ fs
      → (m : Entries) × (pop_entries es d ≡ some (f, m)) × (m.0 ≡ fs)
  pop_entries_cons [] d f fs h = absurd (cc)
  pop_entries_cons ((k, v) ∷ es) d f fs h = let e : (k, v) ≡ f = cc in ((es, d.1), rw (← e), cc)

  abbrev pub assoc_map : LinkedHashMap dec V
  assoc_map = record {
    Map = Entries;
    entries = λ m. m.0;
    with_capacity = λ n. ([], tt);
    len = λ m. length m.0;
    get = λ m k. lookup dec k m.0;
    insert = λ m k v. (push_back m.0 k v, push_back-Distinct m.0 k v m.1);
    set_value = λ m k v. (replace dec k v m.0, replace-Distinct dec k v m.0 m.1);
    remove_entry = λ m k. (remove dec k m.0, remove-Distinct dec k m.0 m.1);
    to_back = λ m k. (move_back m.0 k, move_back-Distinct m.0 k m.1);
    pop_front = λ m. pop_entries m.0 m.1;
    distinct = λ m. m.1;
    entries-with_capacity = λ n. refl;
    len_lem = λ m. refl;
    get_lem = λ m k. refl;
    entries-insert = λ m k v h. push_back-vacant m.0 k v h;
    entries-set_value = λ m k v. refl;
    entries-remove_entry = λ m k. refl;
    entries-to_back = λ m k v h. move_back-occupied m.0 k v h;
    pop_front_empty = λ m h. pop_entries_empty m.0 m.1 h;
    pop_front_cons = λ m e es h. pop_entries_cons m.0 m.1 e es h;
  }
