-- ===== src/Client/Outbox/InMemory.antt =====
-- The store in memory of crates/client-runtime/src/outbox.rs keeps what the engine relies on.
pub mod Sorting
use mathlib.Core.Path.{subst}
use shape_ai.Common.{
  ◌≡◌, refl, sym, ◌∙◌, ap, List, [], ◌∷◌, ◌++◌, Bool, true, false, not, any, filter, ◌==◌, eq_iff,
  All, ◌⊎◌, inl, inr, arith, Bool-cases, Option, none, some, Option-cases,
}
use shape_ai.Common.Int.{ℤ, pos, ◌≤ℤ◌, ◌<ℤ◌, ◌+ℤ◌, +ℤ_parts, ltb_ℤ, max_ℤ}
use shape_ai.Common.Str.{Str, str_key}
use shape_ai.Common.Result.{ok}
use shape_ai.Client.Wire.{OpId, WireOp, op_id_key}
use shape_ai.Client.Wire.Keys.{op_id_key-injective}
use shape_ai.Client.Outbox.{
  InMemoryOutboxStore, is_dropped, append, insert_by_seq, sort_by_seq, all_entries, remove,
  next_local_seq, in_memory, reseed, max_seq, or_zero,
}
use shape_ai.Client.Outbox.Laws.{OutboxLaws, Distinct, AtMost, Among}
use shape_ai.Client.Outbox.InMemory.Sorting.{
  AtMost-filter, Distinct-filter, Among-filter, AtMost-later, Lacks-later, Distinct-append,
  AtMost-append, Among-append, Among-last, sort_sound, Among-sort, Apart-nothing,
}

-- No highest number, or one that is not above the bound.
abbrev Below : ℤ → Option ℤ → Type 0
Below n none = Unit
Below n (some m) = m ≤ℤ n

Below-or_zero : (r : Option ℤ) → Below (or_zero r) r
Below-or_zero none = tt
Below-or_zero (some m) = omega arith

module _ {Json : Type 0} where
  abbrev pub Sound : InMemoryOutboxStore Json → Type 0
  Sound s = Distinct s.entries × AtMost s.seq s.entries

  pub remove-Sound :
      (s : InMemoryOutboxStore Json) (ids : List OpId)
      → Sound s
      → Sound (remove s ids).0 × ((remove s ids).0.seq ≡ s.seq)
  unfolding remove
  remove-Sound s [] h = (h, refl)
  remove-Sound s (id ∷ ids) h =
      let kept = λ (e : WireOp Json). not (is_dropped (id ∷ ids) e) in
      ((Distinct-filter kept s.entries h.0, AtMost-filter kept s.seq s.entries h.1), refl)

  pub remove-Among :
      (s : InMemoryOutboxStore Json) (x : WireOp Json) (ids : List OpId)
      → is_dropped ids x ≡ false
      → Among x s.entries
      → Among x (remove s ids).0.entries
  unfolding remove
  remove-Among s x [] k h = h
  remove-Among s x (id ∷ ids) k h =
      Among-filter (λ (e : WireOp Json). not (is_dropped (id ∷ ids) e)) x s.entries (ap not k) h

  pub append_new-Sound :
      (s s' : InMemoryOutboxStore Json) (n : ℤ) (e : WireOp Json)
      → Sound s
      → next_local_seq s ≡ (s', ok n)
      → e.op_id.local_seq ≡ n
      → Sound (append s' e).0 × ((append s' e).0.seq ≡ n)
  unfolding append next_local_seq
  append_new-Sound s s' n e h run own =
      let s_is : record s { seq = s.seq +ℤ pos 1 } ≡ s' = ap (λ r. r.0) run in
      let n_is : s.seq +ℤ pos 1 ≡ n = cc run in
      let m = s.seq +ℤ pos 1 in
      let own_is : m ≡ e.op_id.local_seq = n_is ∙ sym own in
      let lt : s.seq <ℤ m = omega (arith, +ℤ_parts s.seq (pos 1)) in
      let le : s.seq ≤ℤ m = omega (arith, lt) in
      let top : m ≤ℤ m = omega arith in
      let new = Lacks-later s.seq e s.entries (subst (λ z. s.seq <ℤ z) own_is lt) h.1 in
      subst (λ t. Sound (append t e).0 × ((append t e).0.seq ≡ n)) s_is
        (
          (
            Distinct-append s.entries e h.0 new,
            AtMost-append m s.entries e (AtMost-later s.seq m s.entries le h.1)
                (subst (λ z. z ≤ℤ m) own_is top),
          ),
          n_is,
        )

  pub next_rises_lem :
      (s s' : InMemoryOutboxStore Json) (n : ℤ)
      → next_local_seq s ≡ (s', ok n)
      → (s.seq <ℤ n) × (s'.seq ≡ n)
  unfolding next_local_seq
  next_rises_lem s s' n run =
      let s_is : record s { seq = s.seq +ℤ pos 1 } ≡ s' = ap (λ r. r.0) run in
      let n_is : s.seq +ℤ pos 1 ≡ n = cc run in
      let lt : s.seq <ℤ s.seq +ℤ pos 1 = omega (arith, +ℤ_parts s.seq (pos 1)) in
      (
        subst (λ z. s.seq <ℤ z) n_is lt,
        sym (ap (λ (t : InMemoryOutboxStore Json). t.seq) s_is) ∙ n_is,
      )

  pub next_keeps_lem :
      (s : InMemoryOutboxStore Json)
      → Sound s
      → Sound (next_local_seq s).0 × (s.seq ≤ℤ (next_local_seq s).0.seq)
  unfolding next_local_seq
  next_keeps_lem s h =
      let le : s.seq ≤ℤ s.seq +ℤ pos 1 = omega (arith, +ℤ_parts s.seq (pos 1)) in
      ((h.0, AtMost-later s.seq (s.seq +ℤ pos 1) s.entries le h.1), le)

  pub all_entries-Sound :
      (s : InMemoryOutboxStore Json) (l : List (WireOp Json))
      → Sound s
      → all_entries s ≡ ok l
      → Distinct l × AtMost s.seq l
  unfolding all_entries
  all_entries-Sound s l h run =
      let l_is : sort_by_seq [] s.entries ≡ l = cc run in
      subst (λ t. Distinct t × AtMost s.seq t) l_is
        (sort_sound s.seq [] s.entries tt tt h.0 h.1 (Apart-nothing s.entries))

  pub all-Among :
      (s : InMemoryOutboxStore Json) (l : List (WireOp Json)) (x : WireOp Json)
      → all_entries s ≡ ok l
      → Among x s.entries
      → Among x l
  unfolding all_entries
  all-Among s l x run h =
      let l_is : sort_by_seq [] s.entries ≡ l = cc run in
      subst (Among x) l_is (Among-sort x [] s.entries (inr h))

  pub next-Among :
      (s : InMemoryOutboxStore Json) (x : WireOp Json)
      → Among x s.entries
      → Among x (next_local_seq s).0.entries
  unfolding next_local_seq
  next-Among s x h = h

  pub append-Among :
      (s s' : InMemoryOutboxStore Json) (x : WireOp Json)
      → append s x ≡ (s', ok tt)
      → Among x s'.entries
  unfolding append
  append-Among s s' x run =
      let s_is : record s { entries = s.entries ++ x ∷ [] } ≡ s' = ap (λ r. r.0) run in
      subst (λ (t : InMemoryOutboxStore Json). Among x t.entries) s_is (Among-last x s.entries)

  pub longer-Among :
      (s : InMemoryOutboxStore Json) (x e : WireOp Json)
      → Among x s.entries
      → Among x (append s e).0.entries
  unfolding append
  longer-Among s x e h = Among-append x s.entries (e ∷ []) h

  AtMost-max_seq : (l : List (WireOp Json)) (n : ℤ) → Below n (max_seq l) → AtMost n l
  unfolding max_seq
  AtMost-max_seq [] n h = tt
  AtMost-max_seq (e ∷ l) n h = elim (Option-cases (max_seq l)) [
    | inl empty ↦ (
      (let top : e.op_id.local_seq ≤ℤ n = rw empty at h in top),
      AtMost-max_seq l n (rw empty tt),
    )
    | inr (m, found) ↦
        let top : max_ℤ e.op_id.local_seq m ≤ℤ n = rw found at h in
        (ground arith, AtMost-max_seq l n (rw found (ground arith)))
  ]

  pub reseed-Sound :
      (s : InMemoryOutboxStore Json) (entries : List (WireOp Json))
      → Distinct entries
      → Sound (reseed s entries).0
  unfolding reseed
  reseed-Sound s entries d =
      (d, AtMost-max_seq entries (or_zero (max_seq entries)) (Below-or_zero (max_seq entries)))

  pub reseed-Among :
      (s : InMemoryOutboxStore Json) (x : WireOp Json) (entries : List (WireOp Json))
      → Among x entries
      → Among x (reseed s entries).0.entries
  unfolding reseed
  reseed-Among s x entries h = h

  abbrev pub in_memory_laws : OutboxLaws (in_memory {Json = Json})
  in_memory_laws = record {
    IsSound = Sound;
    Stored = λ x s. Among x s.entries;
    last = λ s. s.seq;
    next_rises = λ s s' n h run. next_rises_lem s s' n run;
    next_keeps = next_keeps_lem;
    append_new = append_new-Sound;
    remove_keeps = remove-Sound;
    all_sound = all_entries-Sound;
    reseed_sound = reseed-Sound;
    stored_reseed = reseed-Among;
    stored_next = next-Among;
    stored_append = append-Among;
    stored_longer = longer-Among;
    stored_remove = λ s x ids. remove-Among s x ids;
    stored_all = all-Among;
  }
