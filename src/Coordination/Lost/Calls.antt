-- ===== src/Coordination/Lost/Calls.antt =====
-- A lost lease under the calls of crates/coordination/src/inmem.rs.
use shape_ai.Common.{
  ℕ, ◌+◌, ◌<◌, ◌≡◌, ◌≢◌, refl, sym, ◌∙◌, ap, List, [], ◌∷◌, true, false, ◌&&◌, Option, none, some,
  arith, ltb, ◌==◌, eq_iff, eq_of_ne, All, Bool-cases, Option-cases, inl, inr, ◌⊎◌,
}
use shape_ai.Common.Str.{Str, str_key}
use shape_ai.Common.Decimal.{decimal, decimal-digits, decimal-injective, IsDecimal, split_last}
use shape_ai.Common.Map.{Map, get, insert, get-insert_self, get-insert_other, get-remove}
use shape_ai.Common.Result.{err}
use shape_ai.Coordination.{
  Lease, LeaseEntry, State, no_longer_held, token_at, blocks, granted, acquire_from, acquire_lease,
  is_holder, renew_entry, renew, release_entry, release, presence_put, presence_get, get_live,
  PresenceEntry,
}
use shape_ai.Coordination.Leases.{
  Call, acquires, renews, releases, puts, gets, call, call_all, state_or, renewed_or,
}

no_dash : (s : Str) → All IsDecimal s → All (λ c. c ≢ b'-') s
no_dash [] h = tt
no_dash (c ∷ s) h = (λ e. absurd (omega (arith, h.0, e)), no_dash s h.1)

-- The counter can be read off a token.
token_at-injective : (a b : Str) (n m : ℕ) → token_at a n ≡ token_at b m → n ≡ m
unfolding token_at
token_at-injective a b n m e =
    decimal-injective n m
      (split_last b'-' a b (decimal n) (decimal m) (no_dash (decimal n) (decimal-digits n))
        (no_dash (decimal m) (decimal-digits m)) e).1

-- A token that was given out, and that the canvas does not hold.
pub record Lost (old : Lease) (n : ℕ) (s : State) : Type 0 where
  given : n < s.counter
  gone : (entry : LeaseEntry) → get old.canvas_id s.leases ≡ some entry → entry.token ≢ old.token

module _ (old : Lease) (n : ℕ) (named : old.token ≡ token_at old.owner n) where
  fresh_token : (s : State) (owner : Str) → n < s.counter → token_at owner s.counter ≢ old.token
  fresh_token s owner lt e =
      absurd (omega (arith, token_at-injective owner old.owner s.counter n (e ∙ named)))

  gone_elsewhere :
      (s : State) (canvas_id : Str) (e : LeaseEntry)
      → (canvas_id == old.canvas_id) ≡ false
      → (entry : LeaseEntry) → get old.canvas_id (insert canvas_id e s.leases) ≡ some entry
      → get old.canvas_id s.leases ≡ some entry
  gone_elsewhere s canvas_id e away entry found =
      sym (
        get-insert_other canvas_id old.canvas_id e s.leases
          (λ same. cc (away, (eq_iff canvas_id old.canvas_id).1 same)))
      ∙ found

  -- The entry that a grant makes has another token.
  granted_token :
      (s : State) (now : ℕ) (canvas_id owner : Str) (ttl : ℕ) (entry : LeaseEntry)
      → n < s.counter
      → (canvas_id == old.canvas_id) ≡ true
      → get old.canvas_id (granted s now canvas_id owner ttl).0.leases ≡ some entry
      → entry.token ≢ old.token
  granted_token s now canvas_id owner ttl entry lt here found q =
      let same = (eq_iff canvas_id old.canvas_id).0 here in
      let e : LeaseEntry = record {
        owner = owner;
        token = token_at owner s.counter;
        expires_at = now + ttl;
      } in
      let own : get old.canvas_id (insert canvas_id e s.leases) ≡ some e =
        ap (λ c. get c (insert canvas_id e s.leases)) (sym same)
        ∙ get-insert_self canvas_id e s.leases in
      let is_new : e ≡ entry = cc (own, found) in
      fresh_token s owner lt (ap (λ (x : LeaseEntry). x.token) is_new ∙ q)

  pub Lost-granted :
      (s : State) (now : ℕ) (canvas_id owner : Str) (ttl : ℕ)
      → n < s.counter
      → (canvas_id ≡ old.canvas_id) ⊎ Lost old n s
      → Lost old n (granted s now canvas_id owner ttl).0
  Lost-granted s now canvas_id owner ttl lt h = record {
    given = omega arith;
    gone = λ entry e. elim (Bool-cases (canvas_id == old.canvas_id)) [
      | inl here ↦ granted_token s now canvas_id owner ttl entry lt here e
      | inr away ↦ elim h [
        | inl same ↦ cc (away, (eq_iff canvas_id old.canvas_id).1 same)
        | inr lost ↦ lost.gone entry (gone_elsewhere s canvas_id _ away entry e)
      ]
    ];
  }

  Lost-acquire :
      (s : State) (now : ℕ) (canvas_id owner : Str) (ttl : ℕ) (found : Option LeaseEntry)
      → Lost old n s
      → Lost old n (state_or s (acquire_from s now canvas_id owner ttl found))
  Lost-acquire s now canvas_id owner ttl none l =
      Lost-granted s now canvas_id owner ttl l.given (inr l)
  Lost-acquire s now canvas_id owner ttl (some entry) l =
      elim (Bool-cases (blocks now owner entry)) [
        | inl blocked ↦ rw blocked l
        | inr free ↦ rw free (Lost-granted s now canvas_id owner ttl l.given (inr l))
      ]

  -- A renewal keeps the token of the entry.
  Lost-renewed :
      (s : State) (canvas_id : Str) (entry : LeaseEntry) (expires_at : ℕ)
      → get canvas_id s.leases ≡ some entry
      → Lost old n s
      → Lost old n (record s {
        leases = insert canvas_id (record entry { expires_at = expires_at }) s.leases;
      })
  Lost-renewed s canvas_id entry expires_at found l = record {
    given = l.given;
    gone = λ x e. elim (Bool-cases (canvas_id == old.canvas_id)) [
      | inl here ↦
          let same = (eq_iff canvas_id old.canvas_id).0 here in
          let kept : LeaseEntry = record entry { expires_at = expires_at } in
          let own : get old.canvas_id (insert canvas_id kept s.leases) ≡ some kept =
            ap (λ c. get c (insert canvas_id kept s.leases)) (sym same)
            ∙ get-insert_self canvas_id kept s.leases in
          let is_kept : kept ≡ x = cc (own, e) in
          let before = ap (λ c. get c s.leases) (sym same) ∙ found in
          λ q. l.gone entry before (ap (λ (y : LeaseEntry). y.token) is_kept ∙ q)
      | inr away ↦ l.gone x (gone_elsewhere s canvas_id _ away x e)
    ];
  }

  Lost-renew :
      (s : State) (now : ℕ) (lease : Lease) (ttl : ℕ) (found : Option LeaseEntry)
      → get lease.canvas_id s.leases ≡ found
      → Lost old n s
      → Lost old n (renewed_or s (renew_entry s now lease ttl found))
  Lost-renew s now lease ttl none e l = l
  Lost-renew s now lease ttl (some entry) e l =
      elim (Bool-cases (is_holder lease entry && ltb now entry.expires_at)) [
        | inl held ↦ rw held (Lost-renewed s lease.canvas_id entry (now + ttl) e l)
        | inr refused ↦ rw refused l
      ]

  Lost-release :
      (s : State) (lease : Lease) (found : Option LeaseEntry)
      → Lost old n s
      → Lost old n (release_entry s lease found)
  Lost-release s lease none l = l
  Lost-release s lease (some entry) l = elim (Bool-cases (is_holder lease entry)) [
    | inl held ↦ rw held (record {
      given = l.given;
      gone = λ x e. l.gone x (ground (arith, get-remove lease.canvas_id old.canvas_id s.leases, e));
    })
    | inr refused ↦ rw refused l
  ]

  Lost-get_live :
      (s : State) (now : ℕ) (canvas_id : Str) (found : Option (Map Str PresenceEntry))
      → Lost old n s
      → Lost old n (get_live s now canvas_id found).0
  Lost-get_live s now canvas_id none l = l
  Lost-get_live s now canvas_id (some entries) l = record { given = l.given; gone = l.gone }

  Lost-call : (s : State) (c : Call) → Lost old n s → Lost old n (call s c)
  unfolding call acquire_lease renew release presence_put presence_get
  Lost-call s (acquires now canvas_id owner ttl) l =
      Lost-acquire s now canvas_id owner ttl (get canvas_id s.leases) l
  Lost-call s (renews now lease ttl) l =
      Lost-renew s now lease ttl (get lease.canvas_id s.leases) refl l
  Lost-call s (releases lease) l = Lost-release s lease (get lease.canvas_id s.leases) l
  Lost-call s (puts now canvas_id key val ttl) l = record { given = l.given; gone = l.gone }
  Lost-call s (gets now canvas_id) l = Lost-get_live s now canvas_id (get canvas_id s.presence) l

  pub Lost-call_all : (s : State) (cs : List Call) → Lost old n s → Lost old n (call_all s cs)
  unfolding call_all
  Lost-call_all s [] l = l
  Lost-call_all s (c ∷ cs) l = Lost-call_all (call s c) cs (Lost-call s c l)

  pub Lost-refused :
      (s : State) (now ttl : ℕ)
      → Lost old n s
      → (renew s now old ttl ≡ err no_longer_held) × (release s old ≡ s)
  unfolding renew release
  Lost-refused s now ttl l = elim (Option-cases (get old.canvas_id s.leases)) [
    | inl free ↦ rw free (refl, refl)
    | inr (entry, held) ↦
        let other : (entry.token == old.token) ≡ false =
          eq_of_ne entry.token old.token (l.gone entry held) in
        (rw (held, other) refl, rw (held, other) refl)
  ]
