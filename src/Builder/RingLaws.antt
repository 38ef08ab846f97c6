-- ===== src/Builder/RingLaws.antt =====
-- What the rings of `get_rings` hold.
use full_service.Prelude.{
  ℕ, zero, suc, ◌-◌, ◌*◌, ◌≡◌, refl, ap, inl, inr, false, Option, none, some, List, [], ◌∷◌, arith,
  subst,
}
use full_service.Prelude.Tests.{ltb, Bool-cases}
use full_service.Prelude.Lists.{length, All}
use full_service.Prelude.Result.{ok, ok_or, bind-eq-ok, ok-injective}
use full_service.Db.Schema.{Bytes}
use full_service.External.{TxOut}
use full_service.Builder.{ledger_db}
use full_service.Builder.Rings.{
  TxOutLedger, Ring, elem, zip, sample, rings_of, get_rings_among, take_ring, take_rings, get_rings,
}
use full_service.Builder.Sampling.{sample-IsSample}

some-injective : {A : Type 0} {a b : A} → ◌≡◌ {A = Option A} (some a) (some b) → a ≡ b
some-injective h = cc

module _ (ledger : TxOutLedger) (excluded : List ℕ) where
  -- An output of the ledger at an index that is not excluded.
  abbrev pub IsMixin : TxOut × Bytes → Type 0
  IsMixin p = (i : ℕ) × (elem i excluded ≡ false) × (ledger.get_tx_out_by_index i ≡ some p.0)

  -- A ring of the right size, of such outputs.
  pub record IsRing (size : ℕ) (ring : Ring) : Type 0 where
    pub full : length ring ≡ size
    pub mixins : All IsMixin ring

  abbrev Allowed : List (ℕ × Bytes) → Type 0
  Allowed = All (λ p. elem p.0 excluded ≡ false)

  Allowed-zip :
      (is : List ℕ) (proofs : List Bytes)
      → All (λ i. elem i excluded ≡ false) is
      → Allowed (zip is proofs)
  Allowed-zip [] proofs h = tt
  Allowed-zip (i ∷ is) [] h = tt
  Allowed-zip (i ∷ is) (p ∷ proofs) h = (h.0, Allowed-zip is proofs h.1)

  take_ring-IsRing :
      (n : ℕ) (left : List (ℕ × Bytes)) (r : Ring × List (ℕ × Bytes))
      → Allowed left
      → take_ring ledger n left ≡ ok r
      → IsRing n r.0 × Allowed r.1
  unfolding take_ring
  take_ring-IsRing zero left r h e =
      let same : ([], left) ≡ r = ok-injective e in
      subst (λ q. IsRing 0 q.0 × Allowed q.1) same (record { full = refl; mixins = tt }, h)
  take_ring-IsRing (suc n) [] r h e = cc
  take_ring-IsRing (suc n) ((i, proof) ∷ left) r h e =
      let (t, et, e1) = bind-eq-ok (ok_or ledger_db (ledger.get_tx_out_by_index i)) _ e in
      let (rest, er, e2) = bind-eq-ok (take_ring ledger n left) _ e1 in
      let (ring, after) = take_ring-IsRing n left rest h.1 er in
      let found : ledger.get_tx_out_by_index i ≡ some t = ground arith in
      subst (λ q. IsRing (suc n) q.0 × Allowed q.1) (ok-injective e2)
        (record { full = ap suc ring.full; mixins = ((i, h.0, found), ring.mixins) }, after)

  take_rings-IsRing :
      (n size : ℕ) (left : List (ℕ × Bytes)) (rings : List Ring)
      → Allowed left
      → take_rings ledger n size left ≡ ok rings
      → (length rings ≡ n) × All (IsRing size) rings
  unfolding take_rings
  take_rings-IsRing zero size left rings h e =
      subst (λ rs. (length rs ≡ 0) × All (IsRing size) rs) (ok-injective e) (refl, tt)
  take_rings-IsRing (suc n) size left rings h e =
      let (r, er, e1) = bind-eq-ok (take_ring ledger size left) _ e in
      let (rs, es, e2) = bind-eq-ok (take_rings ledger n size r.1) _ e1 in
      let (ring, after) = take_ring-IsRing size left r h er in
      let (count, all) = take_rings-IsRing n size r.1 rs after es in
      subst (λ qs. (length qs ≡ suc n) × All (IsRing size) qs) (ok-injective e2)
        (ap suc count, (ring, all))

  module _ (draws : List ℕ) (size n : ℕ) (rings : List Ring) where
    rings_of-IsRing :
        rings_of ledger size n (sample draws (size * n) excluded []) ≡ some (ok rings)
        → (length rings ≡ n) × All (IsRing size) rings
    rings_of-IsRing h = by_sample (sample draws (size * n) excluded []) refl h
      where
        by_sample :
            (o : Option (List ℕ))
            → sample draws (size * n) excluded [] ≡ o
            → rings_of ledger size n o ≡ some (ok rings)
            → (length rings ≡ n) × All (IsRing size) rings
        by_sample none e f = cc
        by_sample (some is) e f =
            let (sound, count) =
              sample-IsSample draws (size * n) excluded [] is
                (record { size = omega arith; distinct = tt; allowed = tt }) e in
            let (proofs, g, taken) =
              bind-eq-ok (ok_or ledger_db (ledger.get_tx_out_proof_of_memberships is)) _
                (some-injective f) in
            take_rings-IsRing n size (zip is proofs) rings (Allowed-zip is proofs sound.allowed)
              taken

    -- Rings that `get_rings` returns are as many as were asked for, each with `ring_size` members, and
    -- every member is an output of the ledger at an index that is not excluded; this for every
    -- sequence of random draws.
    pub get_rings-IsRing :
        get_rings ledger draws size n excluded ≡ some (ok rings)
        → (length rings ≡ n) × All (IsRing size) rings
    unfolding get_rings
    get_rings-IsRing h = by_count ledger.num_txos h
      where
        by_count :
            (count : Option ℕ)
            → get_rings_among ledger draws size n excluded count ≡ some (ok rings)
            → (length rings ≡ n) × All (IsRing size) rings
        by_count none e = absurd (cc (some-injective e))
        by_count (some num_txos) e = elim (Bool-cases (ltb num_txos (length excluded))) [
          | inl f ↦ absurd (cc (some-injective (rw f at e)))
          | inr f ↦ elim (Bool-cases (ltb (num_txos - length excluded) (size * n))) [
            | inl g ↦ absurd (cc (some-injective (rw g at (rw f at e))))
            | inr g ↦ rings_of-IsRing (rw g at (rw f at e))
          ]
        ]
