-- ===== src/Kernel/Split.antt =====
-- crates/scene-core/src/object/kernel/apply.rs: split and merge, which move subpaths between objects
-- and re-home the anchors that address their nodes.
use shape_ai.Common.{
  ℕ, zero, suc, List, [], ◌∷◌, ◌++◌, map, Bool, not, ◌&&◌, ◌||◌, Option, none, some, ltb, nat_eq,
  if◌then◌else◌, any, filter, length, get_elem?, is_empty, ◌==◌, edit_first, remove_first,
}
use shape_ai.Common.Int.{ℤ, pos, negsuc, ◌+ℤ◌, ◌-ℤ◌, ltb_ℤ, leb_ℤ, sat_i32, saturating_add}
use shape_ai.Common.Str.{Str, str_key}
use shape_ai.Common.Result.{Result, ok, ◌>>=◌, ◌>>◌, fail_if, ok_or}
use shape_ai.Fractional.Generate.{generate_key_between}
use shape_ai.Kernel.Model.{ObjectId, Object, ObjectScene, SubPath, Anchor}
use shape_ai.Kernel.Op
use shape_ai.Kernel.Op.{ObjectOp, ops_of}
use shape_ai.Kernel.Path.{from_subpaths}
use shape_ai.Kernel.Edit.{
  ApplyError, duplicate_id, bad_geometry, contour_out_of_range, duplicate_contour, no_contours,
  id_count, order_key, Applied, map_err, index_of, is_there, has_id,
}

abbrev pub has : List Str → Str → Bool
has ids id = any (λ x. x == id) ids

abbrev pub has_index : List ℕ → ℕ → Bool
has_index l n = any (λ x. nat_eq x n) l

-- The indices from `i` on, `n` of them.
abbrev pub range_from : ℕ → ℕ → List ℕ
range_from i zero = []
range_from i (suc n) = i ∷ range_from (suc i) n

-- `saturating_add` of the length of a subpath.
abbrev pub add_nodes : ℤ → SubPath → ℤ
add_nodes acc sp = saturating_add acc (sat_i32 (length sp.nodes))

unfoldable pub offsets_from : ℤ → List SubPath → List ℤ
offsets_from acc [] = acc ∷ []
offsets_from acc (sp ∷ subpaths) = acc ∷ offsets_from (add_nodes acc sp) subpaths

unfoldable pub subpath_offsets : List SubPath → List ℤ
subpath_offsets subpaths = offsets_from (pos 0) subpaths

unfoldable pub capture_peer_anchors : List Object → List ObjectId → List (ObjectId × List Anchor)
capture_peer_anchors [] target_ids = []
capture_peer_anchors (peer ∷ peers) target_ids =
    let rest = capture_peer_anchors peers target_ids in
    if any (λ (a : Anchor). has target_ids a.target) peer.anchors
    then (peer.id, peer.anchors) ∷ rest
    else rest

abbrev pub restore_op : ObjectId × List Anchor → ObjectOp
restore_op (id, anchors) = Op.set_anchor id anchors

-- A contour index that is one of the object's.
abbrev pub contour_index : ℕ → ℤ → Option ℕ
contour_index n_sub (negsuc n) = none
contour_index n_sub (pos n) = if ltb n n_sub then some n else none

-- The loop over the listed contours, with those seen.
unfoldable pub check_contours : ℕ → List ℕ → List ℤ → Result ApplyError (List ℕ)
check_contours n_sub seen [] = ok seen
check_contours n_sub seen (c ∷ contours) = do
  ci ← ok_or (contour_index n_sub c) (bad_geometry (contour_out_of_range c))
  fail_if (has_index seen ci) (bad_geometry (duplicate_contour c))
  check_contours n_sub (seen ++ ci ∷ []) contours

unfoldable pub peeled_contours : ℕ → List ℤ → Result ApplyError (List ℕ)
peeled_contours n_sub [] = ok (range_from 0 n_sub)
peeled_contours n_sub (c ∷ contours) = check_contours n_sub [] (c ∷ contours)

unfoldable pub check_new_ids : ObjectScene → ObjectId → List ObjectId → Result ApplyError (Unit {0})
check_new_ids scene id [] = ok tt
check_new_ids scene id (nid ∷ new_ids) = do
  fail_if (nid == id || is_there scene nid) (duplicate_id nid)
  check_new_ids scene id new_ids

-- `dest`: the place of a contour among those peeled.
abbrev place_from : ℕ → List ℕ → ℕ → Option ℕ
place_from k [] c = none
place_from k (p ∷ peel) c =
    let rest = place_from (suc k) peel c in if nat_eq p c then some k else rest

abbrev pub dest : List ℕ → ℕ → Option ℕ
dest peel c = place_from 0 peel c

abbrev pub select {ℓ} : {A : Type ℓ} → List A → List ℕ → List A
select l [] = []
select l (i ∷ indices) = elim (get_elem? l i) [
  | none ↦ select l indices
  | some a ↦ a ∷ select l indices
]

abbrev add_contour : ℤ → Option SubPath → ℤ
add_contour base none = base
add_contour base (some sp) = add_nodes base sp

-- `kept_new_base`: where a kept contour begins among those kept.
abbrev pub kept_base : List SubPath → ℤ → List ℕ → ℕ → ℤ
kept_base subpaths base [] c = pos 0
kept_base subpaths base (k ∷ kept) c =
    let rest = kept_base subpaths (add_contour base (get_elem? subpaths k)) kept c in
    if nat_eq k c then base else rest

-- Keys behind `prev`, each behind the one before.
unfoldable pub order_keys : ℕ → Str → Result ApplyError (List Str)
order_keys zero prev = ok []
order_keys (suc n) prev = do
  key ← map_err (λ e. bad_geometry (order_key e)) (generate_key_between (some prev) none)
  keys ← order_keys n key
  ok (key ∷ keys)

abbrev pub child : Object → ObjectId → Str → SubPath → Object
child original id order sp = record original {
  id = id;
  order = order;
  geometry = from_subpaths (sp ∷ []) original.geometry.fill_rule;
  anchors = [];
  comments = [];
}

abbrev pub children : Object → List ObjectId → List Str → List SubPath → List Object
children original (id ∷ ids) (key ∷ keys) (sp ∷ subpaths) =
    child original id key sp ∷ children original ids keys subpaths
children original _ _ _ = []

-- The contour that owns a flat node index: the first one whose range holds it.
abbrev pub owner_from : ℕ → List ℤ → ℤ → Option (ℕ × ℤ)
owner_from c [] flat = none
owner_from c (o ∷ []) flat = none
owner_from c (o ∷ p ∷ offsets) flat =
    let rest = owner_from (suc c) (p ∷ offsets) flat in
    if leb_ℤ o flat && ltb_ℤ flat p then some (c, o) else rest

-- What a split moves: the source, the subpaths and the contours peeled and kept.
pub record Plan : Type 0 where
  pub id : ObjectId
  pub subpaths : List SubPath
  pub peel : List ℕ
  pub kept : List ℕ
  pub produced : List ObjectId

abbrev rehome_to : Plan → Anchor → ℕ → ℤ → Option ℕ → Anchor
rehome_to plan a owner local (some k) = elim (get_elem? plan.produced k) [
  | none ↦ a
  | some target ↦ record a { target = target; node_index = local }
]
rehome_to plan a owner local none = record a {
  node_index = kept_base plan.subpaths (pos 0) plan.kept owner +ℤ local;
}

abbrev rehome_owned : Plan → Anchor → Option (ℕ × ℤ) → Anchor
rehome_owned plan a none = a
rehome_owned plan a (some (owner, offset)) =
    rehome_to plan a owner (a.node_index -ℤ offset) (dest plan.peel owner)

unfoldable pub rehome_anchor : Plan → Anchor → Anchor
rehome_anchor plan a =
    if a.target == plan.id
    then rehome_owned plan a (owner_from 0 (subpath_offsets plan.subpaths) a.node_index)
    else a

unfoldable pub rehome_peer : Plan → Object → Object
rehome_peer plan peer =
    if peer.id == plan.id
    then peer
    else record peer { anchors = map (rehome_anchor plan) peer.anchors }

-- The source keeps the contours that stay, or goes if none does.
unfoldable pub shrink_source : Plan → Object → List Object → List Object
shrink_source plan original objects =
    if is_empty plan.kept
    then remove_first (has_id plan.id) objects
    else edit_first (has_id plan.id)
        (λ o. record o {
          geometry = from_subpaths (select plan.subpaths plan.kept) original.geometry.fill_rule;
        })
        objects

abbrev delete_ops : List ObjectId → List ObjectOp
delete_ops ids = map (λ id. Op.delete id) ids

abbrev source_delete : Plan → List ObjectOp
source_delete plan = if is_empty plan.kept then [] else Op.delete plan.id ∷ []

unfoldable pub split_inverse : Plan → Object → List (ObjectId × List Anchor) → ObjectOp
split_inverse plan original peer_before = Op.batch (
    ops_of (
      delete_ops plan.produced
      ++ source_delete plan
      ++ Op.insert_object original ∷ map restore_op peer_before))

unfoldable pub apply_split : ObjectScene → ObjectId → List ObjectId → List ℤ → Applied
apply_split scene id new_ids contours = do
  original ← index_of scene id
  let subpaths = original.geometry.subpaths
  let n_sub = length subpaths
  peel ← peeled_contours n_sub contours
  fail_if (is_empty peel) (bad_geometry no_contours)
  fail_if (not (nat_eq (length new_ids) (length peel)))
      (bad_geometry (id_count (length new_ids) (length peel)))
  check_new_ids scene id new_ids
  let plan : Plan = record {
    id = id;
    subpaths = subpaths;
    peel = peel;
    kept = filter (λ c. not (has_index peel c)) (range_from 0 n_sub);
    produced = new_ids;
  }
  keys ← order_keys (length peel) original.order
  ok (
    record scene {
      objects =
          shrink_source plan original (map (rehome_peer plan) scene.objects)
          ++ children original new_ids keys (select subpaths peel);
    },
    split_inverse plan original (capture_peer_anchors scene.objects (id ∷ [])),
  )
