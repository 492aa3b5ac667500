-- ===== src/Kernel/Validate/Laws.antt =====
-- validate_scene of crates/scene-core/src/object/kernel/validate.rs against an independent
-- description of sound scenes.
use shape_ai.Common.{
  ℕ, zero, suc, ◌+◌, ◌≤◌, ◌≡◌, refl, List, [], ◌∷◌, ◌++◌, Bool, true, false, not, ◌&&◌, Option,
  none, some, ltb, any, is_empty, length, ◌==◌, All, arith, Bool-cases, inl, inr, ◌⊎◌,
}
use shape_ai.Common.Int.{ℤ, pos, ltb_ℤ, leb_ℤ}
use shape_ai.Common.Str.{Str, str_key}
use shape_ai.Common.Map.{Map}
use shape_ai.Common.Result.{Result, ok, err, fail_if-eq-ok, >>=-eq-ok}
use shape_ai.Kernel.Model.{
  Object, ObjectScene, Geometry, SubPath, Anchor, Comment, CommentAnchor, node, point,
}
use shape_ai.Kernel.Validate.{
  ValidationError, min_nodes, validate_subpaths, has_drawable, validate_geometry, parent_of,
  next_parent, walk, check_cycles, validate_no_parent_cycle, out_of_range, check_anchors,
  check_targets, validate_anchor_targets, check_comments, validate_object, errors_of, object_errors,
  validate_scene, comment_outside, flattened_node_count,
}

-- The parents above an id end at a root.
pub data Ends (parents : Map Str (Option Str)) : Option Str → Type 0 where
  root : Ends parents none
  below : (p : Str) → Ends parents (next_parent parents p) → Ends parents (some p)

abbrev pub InRange : ℤ → ℤ → Type 0
InRange node_index node_count =
    (ltb_ℤ node_index (pos 0) ≡ false) × (leb_ℤ node_count node_index ≡ false)

abbrev pub HasNodes : SubPath → Type 0
HasNodes sp = (sp.nodes ≡ []) ⊎ (min_nodes sp.closed ≤ length sp.nodes)

abbrev pub IsDrawn : Geometry → Type 0
IsDrawn geometry = (has_drawable geometry.subpaths ≡ true) × All HasNodes geometry.subpaths

abbrev pub OnNodes : ℤ → Option CommentAnchor → Type 0
OnNodes node_count none = Unit
OnNodes node_count (some (point at)) = Unit
OnNodes node_count (some (node node_index)) = InRange node_index node_count

abbrev pub Hits : ObjectScene → ℤ → Anchor → Type 0
Hits scene node_count a =
    (any (λ (x : Object). x.id == a.target) scene.objects ≡ true) × InRange a.node_index node_count

abbrev pub IsSoundIn : ObjectScene → Object → Type 0
IsSoundIn scene o =
    IsDrawn o.geometry
    × All (λ (c : Comment). OnNodes (flattened_node_count o.geometry) c.at) o.comments
    × All (Hits scene (flattened_node_count o.geometry)) o.anchors
    × Ends (parent_of scene.objects) (next_parent (parent_of scene.objects) o.id)

in_range : (i n : ℤ) → out_of_range i n ≡ false → InRange i n
in_range i n h = elim (Bool-cases (ltb_ℤ i (pos 0))) [
  | inl low ↦ cc (rw low at h)
  | inr fine ↦ (fine, rw fine at h)
]

walk-Ends :
    (rounds : ℕ) (m : Map Str (Option Str)) (seen : List Str) (cursor : Option Str)
    → walk rounds m seen cursor ≡ false
    → Ends m cursor
unfolding walk
walk-Ends rounds m seen none h = root
walk-Ends zero m seen (some p) h = cc
walk-Ends (suc rounds) m seen (some p) h = elim (Bool-cases (any (λ s. s == p) seen)) [
  | inl again ↦ cc (rw again at h)
  | inr fresh ↦ below p (walk-Ends rounds m (p ∷ seen) (next_parent m p) (rw fresh at h))
]

check_cycles-Ends :
    (m : Map Str (Option Str)) (rounds : ℕ) (l : List Object)
    → check_cycles m rounds l ≡ ok tt
    → All (λ (o : Object). Ends m (next_parent m o.id)) l
unfolding check_cycles
check_cycles-Ends m rounds [] h = tt
check_cycles-Ends m rounds (o ∷ l) h =
    let (ends, rest) = fail_if-eq-ok _ _ _ h in
    (walk-Ends rounds m (o.id ∷ []) (next_parent m o.id) ends, check_cycles-Ends m rounds l rest)

enough_nodes {ℓ} :
    {A : Type ℓ} (l : List A) (n : ℕ)
    → (not (is_empty l) && ltb (length l) n) ≡ false
    → (l ≡ []) ⊎ (n ≤ length l)
enough_nodes [] n h = inl refl
enough_nodes (x ∷ l) n h = inr (ground arith)

validate_subpaths-HasNodes :
    (i : ℕ) (l : List SubPath) → validate_subpaths i l ≡ ok tt → All HasNodes l
unfolding validate_subpaths
validate_subpaths-HasNodes i [] h = tt
validate_subpaths-HasNodes i (sp ∷ l) h =
    let (enough, rest) = fail_if-eq-ok _ _ _ h in
    (enough_nodes sp.nodes (min_nodes sp.closed) enough, validate_subpaths-HasNodes (suc i) l rest)

of_not : (b : Bool) → not b ≡ false → b ≡ true
of_not true h = refl
of_not false h = cc

validate_geometry-IsDrawn : (g : Geometry) → validate_geometry g ≡ ok tt → IsDrawn g
unfolding validate_geometry
validate_geometry-IsDrawn g h =
    let (drawn, rest) = fail_if-eq-ok _ _ _ h in
    (of_not (has_drawable g.subpaths) drawn, validate_subpaths-HasNodes 0 g.subpaths rest)

check_anchors-Hits :
    (scene : ObjectScene) (o : Object) (n : ℤ) (l : List Anchor)
    → check_anchors scene o n l ≡ ok tt
    → All (Hits scene n) l
unfolding check_anchors
check_anchors-Hits scene o n [] h = tt
check_anchors-Hits scene o n (a ∷ l) h =
    let (known, more) = fail_if-eq-ok _ _ _ h in
    let (inside, rest) = fail_if-eq-ok _ _ _ more in
    (
      (
        of_not (any (λ (x : Object). x.id == a.target) scene.objects) known,
        in_range a.node_index n inside,
      ),
      check_anchors-Hits scene o n l rest,
    )

OnNodes-outside : (n : ℤ) (at : Option CommentAnchor) → comment_outside at n ≡ false → OnNodes n at
OnNodes-outside n none h = tt
OnNodes-outside n (some (point at)) h = tt
OnNodes-outside n (some (node i)) h = in_range i n h

check_comments-OnNodes :
    (o : Object) (n : ℤ) (l : List Comment)
    → check_comments o n l ≡ ok tt
    → All (λ (c : Comment). OnNodes n c.at) l
unfolding check_comments
check_comments-OnNodes o n [] h = tt
check_comments-OnNodes o n (c ∷ l) h =
    let (inside, rest) = fail_if-eq-ok _ _ _ h in
    (OnNodes-outside n c.at inside, check_comments-OnNodes o n l rest)

check_targets-Hits :
    (scene : ObjectScene) (l : List Object)
    → check_targets scene l ≡ ok tt
    → All (λ (o : Object). All (Hits scene (flattened_node_count o.geometry)) o.anchors) l
unfolding check_targets
check_targets-Hits scene [] h = tt
check_targets-Hits scene (o ∷ l) h =
    let (u, own, rest) = >>=-eq-ok _ _ h in
    (
      check_anchors-Hits scene o (flattened_node_count o.geometry) o.anchors own,
      check_targets-Hits scene l rest,
    )

validate_anchor_targets-Hits :
    (scene : ObjectScene)
    → validate_anchor_targets scene ≡ ok tt
    → All
        (λ (o : Object). All (Hits scene (flattened_node_count o.geometry)) o.anchors)
        scene.objects
unfolding validate_anchor_targets
validate_anchor_targets-Hits scene h = check_targets-Hits scene scene.objects h

validate_no_parent_cycle-Ends :
    (scene : ObjectScene)
    → validate_no_parent_cycle scene ≡ ok tt
    → All
        (λ (o : Object).
          Ends (parent_of scene.objects) (next_parent (parent_of scene.objects) o.id))
        scene.objects
unfolding validate_no_parent_cycle
validate_no_parent_cycle-Ends scene h =
    check_cycles-Ends (parent_of scene.objects) (length scene.objects + 2) scene.objects h

none_reported : (r : Result ValidationError (Unit {0})) → errors_of r ≡ [] → r ≡ ok tt
none_reported (ok u) h = refl
none_reported (err e) h = cc

nil_parts {ℓ} : {A : Type ℓ} (l r : List A) → (l ++ r) ≡ [] → (l ≡ []) × (r ≡ [])
nil_parts [] r h = (refl, h)
nil_parts (x ∷ l) r h = cc

-- The part that an object's own fields decide.
abbrev IsSoundAlone : Object → Type 0
IsSoundAlone o =
    IsDrawn o.geometry
    × All (λ (c : Comment). OnNodes (flattened_node_count o.geometry) c.at) o.comments

validate_object-IsSoundAlone : (o : Object) → validate_object o ≡ ok tt → IsSoundAlone o
unfolding validate_object
validate_object-IsSoundAlone o h =
    let (u, drawn, comments) = >>=-eq-ok _ _ h in
    (
      validate_geometry-IsDrawn o.geometry drawn,
      check_comments-OnNodes o (flattened_node_count o.geometry) o.comments comments,
    )

object_errors-IsSoundAlone : (l : List Object) → object_errors l ≡ [] → All IsSoundAlone l
unfolding object_errors
object_errors-IsSoundAlone [] h = tt
object_errors-IsSoundAlone (o ∷ l) h =
    let (own, rest) = nil_parts _ _ h in
    (
      validate_object-IsSoundAlone o (none_reported (validate_object o) own),
      object_errors-IsSoundAlone l rest,
    )

-- Every object has what the scene's validation asks for: geometry that is drawn, with enough nodes in
-- each subpath that has any; comments and anchors at nodes that exist, anchors with a target that
-- exists; and parents that end at a root.
abbrev pub IsSound : ObjectScene → Type 0
IsSound scene = All (IsSoundIn scene) scene.objects

sound_together :
    (scene : ObjectScene) (l : List Object)
    → All IsSoundAlone l
    → All (λ (o : Object). All (Hits scene (flattened_node_count o.geometry)) o.anchors) l
    → All
        (λ (o : Object).
          Ends (parent_of scene.objects) (next_parent (parent_of scene.objects) o.id))
        l
    → All (IsSoundIn scene) l
sound_together scene [] own hits ends = tt
sound_together scene (o ∷ l) own hits ends =
    ((own.0.0, own.0.1, hits.0, ends.0), sound_together scene l own.1 hits.1 ends.1)

-- A scene that validates without a defect is sound: in every object something is drawn and each subpath
-- with nodes has enough of them; each comment and each anchor at a node names one that the object
-- has; each anchor's target exists; and the chain of parents above each object ends at an object with
-- no parent or at an id that no object has.
pub validate_scene-IsSound : (scene : ObjectScene) → validate_scene scene ≡ [] → IsSound scene
unfolding validate_scene
validate_scene-IsSound scene h =
    let cycles = errors_of (validate_no_parent_cycle scene) in
    let targets = errors_of (validate_anchor_targets scene) in
    let (first, no_miss) = nil_parts (object_errors scene.objects ++ cycles) targets h in
    let (own, no_cycle) = nil_parts (object_errors scene.objects) cycles first in
    sound_together scene scene.objects (object_errors-IsSoundAlone scene.objects own)
      (validate_anchor_targets-Hits scene (none_reported (validate_anchor_targets scene) no_miss))
      (validate_no_parent_cycle-Ends scene
        (none_reported (validate_no_parent_cycle scene) no_cycle))
