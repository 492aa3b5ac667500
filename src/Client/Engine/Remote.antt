-- ===== src/Client/Engine/Remote.antt =====
-- Remote operations at fields with a waiting write, and the revision, in
-- crates/client-runtime/src/sync_engine.rs.
use shape_ai.Common.{[], Bool, any, ltb}
use shape_ai.Common.Int.{ℤ}
use shape_ai.Common.Str.{Str, str_key}
use shape_ai.Common.Map.{Map}
use shape_ai.Kernel.Op.{ObjectOp}
use shape_ai.Client.Engine.{Engine, owned_keys}
use shape_ai.Client.Engine.History.{Unanswered, writers}

-- Some operation without an answer writes a transform, geometry, text or style field that the
-- operation writes.
abbrev pub is_held : Unanswered → ObjectOp → Bool
is_held w op = any (λ field. ltb 0 (writers w field)) (owned_keys op)

abbrev nothing_owned : Map Str ℤ
nothing_owned = []
