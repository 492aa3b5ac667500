-- ===== src/Client/Outbox/Laws.antt =====
-- What the engine of crates/client-runtime relies on of a store of crates/client-runtime/src/outbox.rs:
-- numbers that rise, and entries that stay until they are removed.
use shape_ai.Common.{◌≡◌, List, [], ◌∷◌, false, any, ◌==◌, All, ◌⊎◌}
use shape_ai.Common.Int.{ℤ, ◌≤ℤ◌, ◌<ℤ◌}
use shape_ai.Common.Str.{str_key}
use shape_ai.Common.Result.{ok}
use shape_ai.Client.Wire.{OpId, WireOp, op_id_key}
use shape_ai.Client.Outbox.{OutboxStore, is_dropped}

module _ {Json : Type 0} where
  -- No two entries have one key.
  abbrev pub Distinct : List (WireOp Json) → Type 0
  Distinct [] = Unit
  Distinct (e ∷ l) = (any (λ x. op_id_key x.op_id == op_id_key e.op_id) l ≡ false) × Distinct l

  abbrev pub AtMost : ℤ → List (WireOp Json) → Type 0
  AtMost n l = All (λ e. e.op_id.local_seq ≤ℤ n) l

  abbrev pub Among : WireOp Json → List (WireOp Json) → Type 0
  Among x [] = ⊥
  Among x (e ∷ l) = (e ≡ x) ⊎ Among x l

-- `last` is the highest number given out; `Stored` entries are those that wait. A reseed, whose result
-- the engine does not look at, stores the rows that it is given.
pub record OutboxLaws {Json S : Type 0} (store : OutboxStore Json S) : Type 1 where
  pub IsSound : S → Type 0
  pub Stored : WireOp Json → S → Type 0
  pub last : S → ℤ
  pub next_rises :
      (s s' : S) (n : ℤ)
      → IsSound s
      → store.next_local_seq s ≡ (s', ok n)
      → (last s <ℤ n) × (last s' ≡ n)
  pub next_keeps :
      (s : S)
      → IsSound s
      → IsSound (store.next_local_seq s).0 × (last s ≤ℤ last (store.next_local_seq s).0)
  pub append_new :
      (s s' : S) (n : ℤ) (e : WireOp Json)
      → IsSound s
      → store.next_local_seq s ≡ (s', ok n)
      → e.op_id.local_seq ≡ n
      → IsSound (store.append s' e).0 × (last (store.append s' e).0 ≡ n)
  pub remove_keeps :
      (s : S) (ids : List OpId)
      → IsSound s
      → IsSound (store.remove s ids).0 × (last (store.remove s ids).0 ≡ last s)
  pub all_sound :
      (s : S) (l : List (WireOp Json))
      → IsSound s
      → store.all s ≡ ok l
      → Distinct l × AtMost (last s) l
  pub reseed_sound :
      (s : S) (entries : List (WireOp Json)) → Distinct entries → IsSound (store.reseed s entries).0
  pub stored_reseed :
      (s : S) (x : WireOp Json) (entries : List (WireOp Json))
      → Among x entries
      → Stored x (store.reseed s entries).0
  pub stored_next : (s : S) (x : WireOp Json) → Stored x s → Stored x (store.next_local_seq s).0
  pub stored_append : (s s' : S) (x : WireOp Json) → store.append s x ≡ (s', ok tt) → Stored x s'
  pub stored_longer : (s : S) (x e : WireOp Json) → Stored x s → Stored x (store.append s e).0
  pub stored_remove :
      (s : S) (x : WireOp Json) (ids : List OpId)
      → is_dropped ids x ≡ false
      → Stored x s
      → Stored x (store.remove s ids).0
  pub stored_all :
      (s : S) (l : List (WireOp Json)) (x : WireOp Json)
      → store.all s ≡ ok l
      → Stored x s
      → Among x l
