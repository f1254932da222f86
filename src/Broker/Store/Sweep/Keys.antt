-- ===== src/Broker/Store/Sweep/Keys.antt =====
-- Rows chosen by their ids, as PostgreSQL's sweep chooses them, are the rows chosen themselves,
-- where the keys of a dictionary are distinct and are the ids of its values.
use data_ops_studio_v.Base.{
  ◌≡◌, refl, sym, ap, ◌∙◌, String, Bool, true, false, List, [], ◌∷◌, ◌++◌, ◌||◌, map, filterb, Dict,
  values, Fresh, IsDict, str_eq_flip, str_eq_refl, Bool-cases, inl, inr, arith, snoc-append,
}
use data_ops_studio_v.Broker.Store.{in_ids}
use data_ops_studio_v.Sql.{update_where}
use data_ops_studio_v.Broker.Store.Sweep.Loops.{replaced, selected_keys}

in_ids-append :
    (x : String) (xs ys : List String) → in_ids x (xs ++ ys) ≡ in_ids x xs || in_ids x ys
in_ids-append x [] ys = refl
in_ids-append x (y ∷ xs) ys = ground (arith, in_ids-append x xs ys)

in_ids-head :
    (ids : List String) (k : String) (more : List String) → in_ids k (ids ++ k ∷ more) ≡ true
in_ids-head ids k more = rw (in_ids-append k ids, str_eq_refl k) (ground arith)

in_ids-neither :
    (ids : List String) (k : String) (more : List String)
    → in_ids k ids ≡ false
    → in_ids k more ≡ false
    → in_ids k (ids ++ more) ≡ false
in_ids-neither ids k more a b = rw (in_ids-append k ids, a, b)

module _ {V : Type 0} (id : V → String) where
  abbrev pub Keyed : Dict V → Type 0
  Keyed [] = Unit
  Keyed ((k, v) ∷ d) = (k ≡ id v) × Keyed d

  -- None of the ids is a key.
  abbrev Absent : List String → Dict V → Type 0
  Absent ids [] = Unit
  Absent ids ((k, v) ∷ d) = (in_ids k ids ≡ false) × Absent ids d

  Absent-snoc :
      (ids : List String) (k : String) (d : Dict V)
      → Absent ids d
      → Fresh k d
      → Absent (ids ++ k ∷ []) d
  Absent-snoc ids k [] a f = tt
  Absent-snoc ids k ((j, v) ∷ d) a f =
      (ground (arith, in_ids-append j ids (k ∷ [])), Absent-snoc ids k d a.1 f.1)

  pub Absent-nil : (d : Dict V) → Absent [] d
  Absent-nil [] = tt
  Absent-nil ((k, v) ∷ d) = (refl, Absent-nil d)

  in_ids-selected_keys :
      (c : V → Bool) (k : String) (d : Dict V) → Fresh k d → in_ids k (selected_keys c d) ≡ false
  unfolding selected_keys
  in_ids-selected_keys c k [] f = refl
  in_ids-selected_keys c k ((j, v) ∷ d) f =
      ground (arith, in_ids-selected_keys c k d f.1, str_eq_flip j k f.0)

  pub map-selected_keys :
      (c : V → Bool) (d : Dict V) → Keyed d → map id (filterb c (values d)) ≡ selected_keys c d
  unfolding selected_keys
  map-selected_keys c [] h = refl
  map-selected_keys c ((k, v) ∷ d) h = elim (Bool-cases (c v)) [
    | inl hit ↦ rw hit (cc (map-selected_keys c d h.1))
    | inr miss ↦ rw miss (map-selected_keys c d h.1)
  ]

  update_by_ids_from :
      (c : V → Bool) (f : V → V) (ids all : List String) (d : Dict V)
      → all ≡ ids ++ selected_keys c d
      → Keyed d
      → IsDict d
      → Absent ids d
      → update_where (λ v. in_ids (id v) all) f (values d) ≡ values (replaced c f d)
  unfolding update_where replaced selected_keys
  update_by_ids_from c f ids all [] e h d a = refl
  update_by_ids_from c f ids all ((k, v) ∷ rest) e h d a = elim (Bool-cases (c v)) [
    | inl hit ↦
        let e' : all ≡ ids ++ k ∷ selected_keys c rest = rw hit at e in
        let head : in_ids (id v) all ≡ true = rw (← h.0, e') (in_ids-head ids k _) in
        rw (hit, head)
          (ap (◌∷◌ (f v)) (
            update_by_ids_from c f (ids ++ k ∷ []) all rest (e' ∙ sym (snoc-append ids k _)) h.1 d.1
              (Absent-snoc ids k rest a.1 d.0)))
    | inr miss ↦
        let e' : all ≡ ids ++ selected_keys c rest = rw miss at e in
        let head : in_ids (id v) all ≡ false =
          rw (← h.0, e') (in_ids-neither ids k _ a.0 (in_ids-selected_keys c k rest d.0)) in
        rw (miss, head) (ap (◌∷◌ v) (update_by_ids_from c f ids all rest e' h.1 d.1 a.1))
  ]

  pub update_by_ids :
      (c : V → Bool) (f : V → V) (d : Dict V)
      → Keyed d
      → IsDict d
      → update_where (λ v. in_ids (id v) (selected_keys c d)) f (values d) ≡ values (replaced c f d)
  update_by_ids c f d h u = update_by_ids_from c f [] (selected_keys c d) d refl h u (Absent-nil d)
