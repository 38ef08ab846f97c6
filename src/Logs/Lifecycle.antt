-- ===== src/Logs/Lifecycle.antt =====
-- The life of a transaction log through the operations of full-service/src/db/transaction_log.rs.
use full_service.Prelude.{◌≡◌, refl, ap, ◌∙◌, Bool, true, false, some, List, [], ◌∷◌, ◌++◌, arith}
use full_service.Prelude.Tests.{◌==◌, if◌then◌else◌, is_some}
use full_service.Prelude.Lists.{All, find?}
use full_service.Db.Schema.{RowId, TransactionLog}
use full_service.Db.Tables.{update}
use full_service.Db.Rows.{find?-update, find?-append, update_found, found_or}
use full_service.Logs.Defs.{TxStatus, built, signed, pending, succeeded, failed, status}

-- Where a log may go: a built one anywhere, a pending one to its end, and from an end nowhere.
abbrev pub leads_to : TxStatus → TxStatus → Bool
leads_to built t = true
leads_to signed t = true
leads_to pending built = false
leads_to pending signed = false
leads_to pending t = true
leads_to succeeded succeeded = true
leads_to succeeded t = false
leads_to failed failed = true
leads_to failed t = false

leads_to_refl : (s : TxStatus) → leads_to s s ≡ true
leads_to_refl built = refl
leads_to_refl signed = refl
leads_to_refl pending = refl
leads_to_refl succeeded = refl
leads_to_refl failed = refl

leads_to_trans :
    (s t u : TxStatus) → leads_to s t ≡ true → leads_to t u ≡ true → leads_to s u ≡ true
leads_to_trans s t u p q = ground arith

-- A finalised log was submitted and has not failed.
pub record LogIsValid (l : TransactionLog) : Type 0 where
  pub submitted : is_some l.finalized_block_index ≡ true → is_some l.submitted_block_index ≡ true
  pub not_failed : is_some l.finalized_block_index ≡ true → l.failed ≡ false

abbrev pub AllValid : List TransactionLog → Type 0
AllValid ls = All LogIsValid ls

-- Every log of `before` is still there, in a status that its old one leads to.
pub record Follows (before after : List TransactionLog) : Type 0 where
  pub at :
      (i : RowId) (l : TransactionLog)
      → find? (λ k. k.id == i) before ≡ some l
      → (m : TransactionLog) × (find? (λ k. k.id == i) after ≡ some m)
        × (leads_to (status l) (status m) ≡ true)

pub Follows-refl : (ls : List TransactionLog) → Follows ls ls
Follows-refl ls = record { at = λ i l e. (l, e, leads_to_refl (status l)) }

pub Follows-trans : (a b c : List TransactionLog) → Follows a b → Follows b c → Follows a c
Follows-trans a b c f g = record {
  at = λ i l e.
      let (m, p, q) = f.at i l e in
      let (n, r, s) = g.at i m p in (n, r, leads_to_trans (status l) (status m) (status n) q s);
}

-- An update of some rows, each to a status that its old one leads to.
pub Follows-update :
    (p : TransactionLog → Bool) (f : TransactionLog → TransactionLog) (ls : List TransactionLog)
    → ((l : TransactionLog) → (f l).id ≡ l.id)
    → ((l : TransactionLog) → p l ≡ true → leads_to (status l) (status (f l)) ≡ true)
    → Follows ls (update p f ls)
Follows-update p f ls same steps = record {
  at = λ i l e. (
    (if p l then f l else l),
    find?-update (λ k. k.id == i) p f (λ k. ap (λ j. j == i) (same k)) ls ∙ ap (update_found p f) e,
    stepped l (p l) refl,
  );
}
  where
    stepped :
        (l : TransactionLog) (b : Bool)
        → p l ≡ b
        → leads_to (status l) (status (if b then f l else l)) ≡ true
    stepped l true e = steps l e
    stepped l false e = leads_to_refl (status l)

pub Follows-append : (ls : List TransactionLog) (l : TransactionLog) → Follows ls (ls ++ l ∷ [])
Follows-append ls l = record {
  at = λ i k e. (
    k,
    find?-append (λ k. k.id == i) ls (l ∷ [])
        ∙ ap (λ o. found_or o (find? (λ k. k.id == i) (l ∷ []))) e,
    leads_to_refl (status k),
  );
}

pub AllValid-update :
    (p : TransactionLog → Bool) (f : TransactionLog → TransactionLog) (ls : List TransactionLog)
    → ((l : TransactionLog) → p l ≡ true → LogIsValid l → LogIsValid (f l))
    → AllValid ls
    → AllValid (update p f ls)
AllValid-update p f [] keeps h = tt
AllValid-update p f (l ∷ ls) keeps h = (valid (p l) refl, AllValid-update p f ls keeps h.1)
  where
    valid : (b : Bool) → p l ≡ b → LogIsValid (if b then f l else l)
    valid true e = keeps l e h.0
    valid false e = h.0

pub AllValid-append :
    (ls : List TransactionLog) (l : TransactionLog)
    → AllValid ls
    → LogIsValid l
    → AllValid (ls ++ l ∷ [])
AllValid-append [] l h v = (v, tt)
AllValid-append (k ∷ ls) l h v = (h.0, AllValid-append ls l h.1 v)
