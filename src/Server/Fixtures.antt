-- ===== src/Server/Fixtures.antt =====
-- A codec that keeps what is written, and a store in memory with one object.
use shape_ai.Common.{[], ◌∷◌, Option, none, some}
use shape_ai.Common.Str.{Str, bytes}
use shape_ai.Kernel.Model.{
  Object, ObjectScene, empty_scene, new_object, Geometry, even_odd, translate,
}
use shape_ai.Kernel.Op
use shape_ai.Kernel.Op.{ObjectOp}
use shape_ai.Kernel.Apply.{Affine}
use shape_ai.Storage.Adapter.{MemoryAdapter}
use shape_ai.Server.Store.{Codec, CanvasMeta}
use shape_ai.Server.Actor.{JournalEntry, JournalCodec}

abbrev pub still : Affine
still = record { canonicalize_orientation = λ t g. none; rehome_anchor_local = λ old new at. at }

-- A payload keeps what was written.
pub data Saved : Type 0 where
  object : Object → Saved
  meta : CanvasMeta → Saved
  entry : JournalEntry → Saved

abbrev pub saved_object : Saved → Option Object
saved_object (object o) = some o
saved_object (meta m) = none
saved_object (entry e) = none

abbrev pub saved_meta : Saved → Option CanvasMeta
saved_meta (object o) = none
saved_meta (meta m) = some m
saved_meta (entry e) = none

abbrev pub saved_entry : Saved → Option JournalEntry
saved_entry (object o) = none
saved_entry (meta m) = none
saved_entry (entry e) = some e

abbrev pub plain : Codec
plain = record {
  Payload = Saved;
  write_object = object;
  read_object = saved_object;
  write_meta = meta;
  read_meta = saved_meta;
  region_key = λ canvas_id o. none;
}

abbrev pub plain_journal : JournalCodec Saved
plain_journal = record { write_entry = entry; read_entry = saved_entry }

abbrev pub canvas_c : Str
canvas_c = bytes "c"

abbrev pub blank : Geometry
blank = record { path_string = []; fill_rule = even_odd; subpaths = [] }

abbrev pub card : Object
card = new_object (bytes "a") (bytes "a0") blank

abbrev pub disk : MemoryAdapter Saved
disk = record {
  snapshot =
      (
        bytes "c:object:a",
        record {
          id = bytes "c:object:a";
          kind = bytes "object";
          version = 0;
          payload = object card;
        },
      )
      ∷ [];
  regions = [];
}

abbrev pub scene : ObjectScene
scene = record empty_scene { objects = card ∷ [] }

abbrev pub drag : ObjectOp
drag = Op.set_transform (bytes "a") (translate 1 2)
