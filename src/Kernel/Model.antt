-- ===== src/Kernel/Model.antt =====
-- crates/scene-core/src/object/kernel/model.rs: the canvas objects. An f64 is its 64-bit pattern and
-- a JSON value its text: nothing here computes with either. An i32 or i64 is an unbounded integer.
use native.Mathlib.Decide.{ℕ_discrete}
use shape_ai.Common.{ℕ, List, [], Bool, false, Option, none, find, ◌==◌}
use shape_ai.Common.Int.{ℤ}
use shape_ai.Common.Str.{Str, str_key}

abbrev pub F64 : Type 0
F64 = ℕ

abbrev pub one_f64 : F64
one_f64 = 0x3ff0000000000000

abbrev pub ObjectId : Type 0
ObjectId = Str

abbrev pub ObjectMeta : Type 0
ObjectMeta = Str

pub record HandlePoint : Type 0 where
  pub dx : ℤ
  pub dy : ℤ

pub record PathNode : Type 0 where
  pub x : ℤ
  pub y : ℤ
  pub in_handle : Option HandlePoint
  pub out_handle : Option HandlePoint
  pub width : Option ℤ

abbrev pub corner : ℤ → ℤ → PathNode
corner x y = record { x = x; y = y; in_handle = none; out_handle = none; width = none }

pub record SubPath : Type 0 where
  pub closed : Bool
  pub nodes : List PathNode

pub data FillRule : Type 0 where
  even_odd non_zero : FillRule

pub record Geometry : Type 0 where
  pub path_string : Str
  pub fill_rule : FillRule
  pub subpaths : List SubPath

pub record Transform3x3 : Type 0 where
  pub m : (F64 × F64 × F64) × (F64 × F64 × F64) × (F64 × F64 × F64)

abbrev pub identity : Transform3x3
identity = record { m = ((one_f64, 0, 0), (0, one_f64, 0), (0, 0, one_f64)) }

abbrev pub translate : F64 → F64 → Transform3x3
translate tx ty = record { m = ((one_f64, 0, tx), (0, one_f64, ty), (0, 0, one_f64)) }

pub record Warp : Type 0 where
  pub cols : ℤ
  pub rows : ℤ
  pub points : List PathNode

pub record GradientStop : Type 0 where
  pub offset : F64
  pub color : Str

pub data Paint : Type 0 where
  solid : (color : Str) → Paint
  gradient : (stops : List GradientStop) (angle : F64) → Paint
  image : (content_ref : Str) → Paint
  token : (name : Str) → Paint

pub record Fill : Type 0 where
  pub paint : Paint
  pub opacity : F64

pub data LineCap : Type 0 where
  butt round square : LineCap

pub data LineJoin : Type 0 where
  miter round bevel : LineJoin

pub record Stroke : Type 0 where
  pub paint : Paint
  pub width : ℤ
  pub opacity : F64
  pub dash : List ℤ
  pub cap : LineCap
  pub join : LineJoin

pub data TextAlign : Type 0 where
  start center end justify : TextAlign

pub data TextVAlign : Type 0 where
  top middle bottom : TextVAlign

pub record TextRun : Type 0 where
  pub text : Str
  pub color : Option Str
  pub size : Option ℤ
  pub bold : Bool
  pub italic : Bool
  pub font : Option Str

pub record Text : Type 0 where
  pub runs : List TextRun
  pub align : TextAlign
  pub valign : TextVAlign

-- `PartialEq` of an optional text.
unfoldable pub text_discrete : Discrete (Option Text)
text_discrete = hlevel ℕ_discrete

pub record LocalPoint : Type 0 where
  pub x : ℤ
  pub y : ℤ

pub record Anchor : Type 0 where
  pub node_index : ℤ
  pub target : ObjectId
  pub at : LocalPoint

pub data LayoutAxis : Type 0 where
  horizontal vertical : LayoutAxis

pub data Lanes : Type 0 where
  count : (value : ℕ) → Lanes
  fill : Lanes

pub data MainAlign : Type 0 where
  start center end space_between : MainAlign

pub data CrossAlign : Type 0 where
  start center end stretch : CrossAlign

pub record Align : Type 0 where
  pub main : MainAlign
  pub cross : CrossAlign

pub record Layout : Type 0 where
  pub axis : LayoutAxis
  pub lanes : Lanes
  pub spacing : ℤ
  pub align : Align

pub data AxisSizing : Type 0 where
  hug fill : AxisSizing
  fixed : (value : ℤ) → AxisSizing

pub record Sizing : Type 0 where
  pub w : AxisSizing
  pub h : AxisSizing

pub data CommentAnchor : Type 0 where
  node : (node_index : ℤ) → CommentAnchor
  point : (at : LocalPoint) → CommentAnchor

pub record Comment : Type 0 where
  pub id : Str
  pub author : Str
  pub body : Str
  pub at : Option CommentAnchor
  pub resolved : Bool

pub record ContentEmbed : Type 0 where
  pub kind : Str
  pub content_ref : Str

pub record Object : Type 0 where
  pub id : ObjectId
  pub parent : Option ObjectId
  pub order : Str
  pub transform : Transform3x3
  pub warp : Option Warp
  pub geometry : Geometry
  pub fill : Option Fill
  pub stroke : Option Stroke
  pub text : Option Text
  pub anchors : List Anchor
  pub layout : Option Layout
  pub sizing : Option Sizing
  pub clip : Option Bool
  pub comments : List Comment
  pub tags : List Str
  pub name : Option Str
  pub hidden : Bool
  pub locked : Bool
  pub component_of : Option ObjectId
  pub content : Option ContentEmbed
  pub meta : Option ObjectMeta

-- `Object::new`.
abbrev pub new_object : ObjectId → Str → Geometry → Object
new_object id order geometry = record {
  id = id;
  parent = none;
  order = order;
  transform = identity;
  warp = none;
  geometry = geometry;
  fill = none;
  stroke = none;
  text = none;
  anchors = [];
  layout = none;
  sizing = none;
  clip = none;
  comments = [];
  tags = [];
  name = none;
  hidden = false;
  locked = false;
  component_of = none;
  content = none;
  meta = none;
}

pub record TagDef : Type 0 where
  pub id : Str
  pub name : Str
  pub color : Str

pub data ObjectSelection : Type 0 where
  canvas : ObjectSelection
  object : (id : ObjectId) → ObjectSelection
  multi : (ids : List ObjectId) → ObjectSelection

pub record ObjectScene : Type 0 where
  pub scene_version : ℤ
  pub objects : List Object
  pub tags : List TagDef
  pub selection : ObjectSelection
  pub updated_at : Str

-- `ObjectScene::default`.
abbrev pub empty_scene : ObjectScene
empty_scene = record {
  scene_version = ℤ.pos 0;
  objects = [];
  tags = [];
  selection = canvas;
  updated_at = [];
}

-- `ObjectScene::get`.
abbrev pub get_object : ObjectScene → ObjectId → Option Object
get_object scene id = find (λ o. o.id == id) scene.objects
