-- ===== src/Config/Env/OnePass.antt =====
-- crates/midgard-config/src/env.rs: collecting the overrides and applying them one after the other is
-- one walk over the tree.
use midgard_rs.Common.{
  ◌≡◌, refl, sym, ap, ◌∙◌, inl, inr, Option, Option-cases, none, some, List, [], ◌∷◌, ◌++◌, map,
  Result, ok, ◌>>=◌,
}
use mathlib.Core.List.{append-nil}
use midgard_rs.Common.Text.{Text}
use midgard_rs.Record.Rows.{F64}
use midgard_rs.Config.Json.{
  Value, Fields, null, boolean, integer, float, string, array, object, no_fields, field,
}
use midgard_rs.Config.Env.{
  MapValue, Failure, scalar_map_at, env_name, find_var, Override, at_leaf, collect, collect_fields,
  update, update_fields, change_by, apply_all, apply,
}
use midgard_rs.Config.Env.Edits.{
  AllMiss, AllMiss-next, AreMaps, IsMap, behind, behind_assoc, bind_assoc, bind_cong, bind_ok,
  map-id, map-under, map_append, nothing_missed, run, run-append, run-under, under,
}

module _ (parse_f64 : Text → Option F64) (environment : List (Text × Text)) where
  -- The tree with its overrides, in one walk.
  abbrev pub overlay_leaf : List Text → Value → Result Failure Value
  overlay_leaf path v = elim (find_var environment (env_name path)) [
    | none ↦ ok v
    | some raw ↦ change_by parse_f64 (record { path = path; var = env_name path; raw = raw }) v
  ]

  mutual
    pub overlay : List Text → Value → Result Failure Value
    overlay path (object fs) =
        let below = overlay_fields path fs in
        elim (scalar_map_at path) [
          | none ↦ below >>= λ gs. ok (object gs)
          | some kind ↦ overlay_leaf path (object fs)
        ]
    overlay path null = overlay_leaf path null
    overlay path (boolean b) = overlay_leaf path (boolean b)
    overlay path (integer n) = overlay_leaf path (integer n)
    overlay path (float x) = overlay_leaf path (float x)
    overlay path (string s) = overlay_leaf path (string s)
    overlay path (array vs) = overlay_leaf path (array vs)

    pub overlay_fields : List Text → Fields → Result Failure Fields
    overlay_fields path no_fields = ok no_fields
    overlay_fields path (field key v fs) =
        let here = overlay (path ++ key ∷ []) v in
        let later = overlay_fields path fs in here >>= λ w. later >>= λ gs. ok (field key w gs)

  -- The overrides as changes, with paths from the node on.
  abbrev leaf_edits : List Text → List (List Text × (Value → Result Failure Value))
  leaf_edits path = elim (find_var environment (env_name path)) [
    | none ↦ []
    | some raw ↦
        ([], change_by parse_f64 (record { path = path; var = env_name path; raw = raw })) ∷ []
  ]

  mutual
    edits : List Text → Value → List (List Text × (Value → Result Failure Value))
    edits path (object fs) =
        let below = edits_fields path fs in
        elim (scalar_map_at path) [ none ↦ below | some kind ↦ leaf_edits path ]
    edits path null = leaf_edits path
    edits path (boolean b) = leaf_edits path
    edits path (integer n) = leaf_edits path
    edits path (float x) = leaf_edits path
    edits path (string s) = leaf_edits path
    edits path (array vs) = leaf_edits path

    edits_fields : List Text → Fields → List (List Text × (Value → Result Failure Value))
    edits_fields path no_fields = []
    edits_fields path (field key v fs) =
        map (under (key ∷ [])) (edits (path ++ key ∷ []) v) ++ edits_fields path fs

  abbrev as_edit : Override → List Text × (Value → Result Failure Value)
  as_edit o = (o.path, change_by parse_f64 o)

  apply_all-run :
      (os : List Override) (v : Value) → apply_all parse_f64 os v ≡ run (map as_edit os) v
  apply_all-run [] v = refl
  apply_all-run (o ∷ os) v =
      bind_cong (update o.path (change_by parse_f64 o) v) (apply_all parse_f64 os)
        (run (map as_edit os)) (apply_all-run os)

  leaf-edits :
      (path : List Text)
      → map as_edit (at_leaf path environment) ≡ map (under path) (leaf_edits path)
  leaf-edits path = elim (Option-cases (find_var environment (env_name path))) [
    | inl e ↦ rw (at_leaf, leaf_edits, e) refl
    | inr (raw, e) ↦
        rw (at_leaf, leaf_edits, e)
          (ap
            (λ p.
              (p, change_by parse_f64 (record { path = path; var = env_name path; raw = raw }))
              ∷ [])
            (sym (append-nil path)))
  ]

  overlay-leaf : (path : List Text) (v : Value) → run (leaf_edits path) v ≡ overlay_leaf path v
  unfolding update update_fields
  overlay-leaf path v = elim (Option-cases (find_var environment (env_name path))) [
    | inl e ↦ rw (leaf_edits, overlay_leaf, e) refl
    | inr (raw, e) ↦ rw (leaf_edits, overlay_leaf, e) (bind_ok _)
  ]

  collect_choice :
      (path : List Text) (o : Option MapValue) (below : List Override)
      (es : List (List Text × (Value → Result Failure Value)))
      → map as_edit below ≡ map (under path) es
      → map as_edit (elim o [ none ↦ below | some kind ↦ at_leaf path environment ])
        ≡ map (under path) (elim o [ none ↦ es | some kind ↦ leaf_edits path ])
  collect_choice path none below es h = h
  collect_choice path (some kind) below es h = leaf-edits path

  run_choice :
      (path : List Text) (fs : Fields) (o : Option MapValue)
      (es : List (List Text × (Value → Result Failure Value))) (r : Result Failure Value)
      → run es (object fs) ≡ r
      → run (elim o [ none ↦ es | some kind ↦ leaf_edits path ]) (object fs)
        ≡ (elim o [ none ↦ r | some kind ↦ overlay_leaf path (object fs) ])
  run_choice path fs none es r h = h
  run_choice path fs (some kind) es r h = overlay-leaf path (object fs)

  mutual
    unfolding collect collect_fields edits edits_fields

    collect-edits :
        (path : List Text) (v : Value)
        → map as_edit (collect v path environment) ≡ map (under path) (edits path v)
    collect-edits path (object fs) =
        collect_choice path (scalar_map_at path) (collect_fields fs path environment)
          (edits_fields path fs) (collect_fields-edits path fs)
    collect-edits path null = leaf-edits path
    collect-edits path (boolean b) = leaf-edits path
    collect-edits path (integer n) = leaf-edits path
    collect-edits path (float x) = leaf-edits path
    collect-edits path (string s) = leaf-edits path
    collect-edits path (array vs) = leaf-edits path

    collect_fields-edits :
        (path : List Text) (fs : Fields)
        → map as_edit (collect_fields fs path environment) ≡ map (under path) (edits_fields path fs)
    collect_fields-edits path no_fields = refl
    collect_fields-edits path (field k v fs) =
        let es = edits (path ++ k ∷ []) v in
        map_append as_edit (collect v (path ++ k ∷ []) environment)
          (collect_fields fs path environment)
        ∙ ap (λ x. x ++ map as_edit (collect_fields fs path environment))
            (collect-edits (path ++ k ∷ []) v ∙ sym (map-under path k es))
        ∙ ap (λ x. map (under path) (map (under (k ∷ [])) es) ++ x) (collect_fields-edits path fs)
        ∙ sym (map_append (under path) (map (under (k ∷ [])) es) (edits_fields path fs))

  mutual
    unfolding edits edits_fields overlay overlay_fields IsMap AreMaps

    run-edits : (path : List Text) (v : Value) → IsMap v → run (edits path v) v ≡ overlay path v
    run-edits path (object fs) m =
        run_choice path fs (scalar_map_at path) (edits_fields path fs)
          (overlay_fields path fs >>= λ gs. ok (object gs))
          (run-edits_fields path no_fields fs m (nothing_missed fs))
    run-edits path null m = overlay-leaf path null
    run-edits path (boolean b) m = overlay-leaf path (boolean b)
    run-edits path (integer n) m = overlay-leaf path (integer n)
    run-edits path (float x) m = overlay-leaf path (float x)
    run-edits path (string s) m = overlay-leaf path (string s)
    run-edits path (array vs) m = overlay-leaf path (array vs)

    run-edits_fields :
        (path : List Text) (pre fs : Fields)
        → AreMaps fs
        → AllMiss pre fs
        → run (edits_fields path fs) (object (behind pre fs))
          ≡ (overlay_fields path fs >>= λ gs. ok (object (behind pre gs)))
    run-edits_fields path pre no_fields m a = refl
    run-edits_fields path pre (field k v fs) (new, m, ms) (miss, a) =
        let es = edits (path ++ k ∷ []) v in
        let later = edits_fields path fs in
        run-append (map (under (k ∷ [])) es) later (object (behind pre (field k v fs)))
        ∙ ap (λ r. r >>= run later) (run-under k es pre v fs miss)
        ∙ bind_assoc (run es v) (λ w. ok (object (behind pre (field k w fs)))) (run later)
        ∙ ap (λ r. r >>= λ w. run later (object (behind pre (field k w fs))))
            (run-edits (path ++ k ∷ []) v m)
        ∙ bind_cong (overlay (path ++ k ∷ []) v)
            (λ w. run later (object (behind pre (field k w fs))))
            (λ w. (overlay_fields path fs >>= λ gs. ok (field k w gs)) >>= λ gs.
              ok (object (behind pre gs)))
            (λ w.
              ap (λ x. run later (object x)) (sym (behind_assoc pre (field k w no_fields) fs))
              ∙ run-edits_fields path (behind pre (field k w no_fields)) fs ms
                  (AllMiss-next k w pre fs a new)
              ∙ bind_cong (overlay_fields path fs)
                  (λ gs. ok (object (behind (behind pre (field k w no_fields)) gs)))
                  (λ gs. ok (object (behind pre (field k w gs))))
                  (λ gs. ap (λ x. ok (object x)) (behind_assoc pre (field k w no_fields) gs))
              ∙ sym (
                  bind_assoc (overlay_fields path fs) (λ gs. ok (field k w gs))
                    (λ gs. ok (object (behind pre gs)))))
        ∙ sym (
            bind_assoc (overlay (path ++ k ∷ []) v)
              (λ w. overlay_fields path fs >>= λ gs. ok (field k w gs))
              (λ gs. ok (object (behind pre gs))))

  -- On a tree of settings whose objects have each key once, `apply`, which first collects the
  -- overrides and then looks up and replaces the nodes one after the other, gives the tree, or the
  -- error, of one walk that replaces each leaf, and each map that is set as a whole, by its
  -- variable where it has one; so no path is missed.
  pub apply-overlay :
      (root : Value) → IsMap root → apply parse_f64 root environment ≡ overlay [] root
  unfolding apply
  apply-overlay root m =
      apply_all-run (collect root [] environment) root
      ∙ ap (λ es. run es root) (collect-edits [] root ∙ map-id (edits [] root))
      ∙ run-edits [] root m
