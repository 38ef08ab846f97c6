-- ===== src/Service/Receipts.antt =====
-- What a receipt that is checked as a success says of the wallet.
use full_service.Prelude.{
  ◌≡◌, refl, ap, Bool, true, false, Option, none, some, List, [], ◌∷◌, inl, inr,
}
use full_service.Prelude.Tests.{◌==◌, if◌then◌else◌, Bool-cases, ==_iff}
use full_service.Prelude.Lists.{filter, find?}
use full_service.Prelude.Result.{
  ok, ok_or, map_err, map_err→ok, ok_or→some, Gives, Gives-ok, Gives-if, Gives-bind,
}
use full_service.Db.Schema.{RowId, Bytes, Account, Txo, AssignedSubaddress}
use full_service.Db.Tables.{Db}
use full_service.Db.Query.{find_account, find_subaddress}
use full_service.External.{Crypto, Amount}
use full_service.Txos.Status.{status}
use full_service.Txos.Spendable.{value_of}
use full_service.Txos.Info.{
  TxoInfo, memo, validate_confirmation, has_public_key, select_by_public_key,
}
use full_service.Service.Receipt.{
  ReceiverReceipt, ReceiptCrates, ReceiptServiceError, transaction_success, invalid_confirmation,
  not_landed, check_confirmation, check_amount, check_txo, check_first, check_receipt_status,
}

filter_first :
    {A : Type 0} (p : A → Bool) (xs ys : List A) (x : A)
    → filter p xs ≡ x ∷ ys
    → find? p xs ≡ some x
filter_first p [] ys x h = cc
filter_first p (a ∷ bs) ys x h = elim (Bool-cases (p a)) [
  | inl e ↦ rw e (ap some (cc (rw e at h)))
  | inr e ↦ rw e (filter_first p bs ys x (rw e at h))
]

module _ (c : Crypto) (w : ReceiptCrates) (r : ReceiverReceipt) (db : Db) where
  -- What the confirmation number of the receipt is after its encoding and decoding.
  abbrev IsNumber : Bytes → Type 0
  IsNumber k =
      (bytes : Bytes) × (w.hex_decode (w.hex_encode (c.encode r.confirmation)) ≡ some bytes)
      × (c.decode bytes ≡ some k)

  -- The amount and the confirmation number that a receipt names are those of the txo.
  pub record IsConfirmed (account_id : RowId) (account : Account) (info : TxoInfo) : Type 0 where
    pub landed : not_landed info.status ≡ false
    pub key : Bytes
    pub key_of : c.decode_account_key account.account_key ≡ some key
    pub public : Bytes
    pub public_of : c.ristretto_public r.public_key ≡ some public
    pub amount : Amount
    pub amount_of :
        w.get_value r.amount (c.get_tx_out_shared_secret (c.account_view_private_key key) public)
        ≡ some amount
    pub same_value : value_of info.txo ≡ amount.value
    pub confirmation : Bytes
    pub confirmation_of : IsNumber confirmation
    pub valid : validate_confirmation w.memos c account_id info.txo.id confirmation db ≡ ok true

  -- The txo is the account's first with the public key of the receipt.
  pub record IsReceived (address : RowId) (o : Option TxoInfo) : Type 0 where
    pub assigned : AssignedSubaddress
    pub address_of : find_subaddress address db ≡ ok assigned
    pub account : Account
    pub account_of : find_account assigned.account_id db ≡ ok account
    pub info : TxoInfo
    pub answer : o ≡ some info
    pub found : find? (has_public_key c (r.public_key ∷ [])) db.txos ≡ some info.txo
    pub status_of : info.status ≡ status db info.txo
    pub confirmed : IsConfirmed assigned.account_id account info

  check_confirmation_lem :
      (a : RowId) (info : TxoInfo)
      → Gives
          (λ x.
            x.0 ≡ transaction_success
            → (x.1 ≡ some info)
              × (k : Bytes) × IsNumber k
              × (validate_confirmation w.memos c a info.txo.id k db ≡ ok true))
          (check_confirmation c w a r info db)
  unfolding check_confirmation
  check_confirmation_lem a info =
      Gives-bind
        (ok_or ReceiptServiceError.hex_decode
          (w.hex_decode (w.hex_encode (c.encode r.confirmation))))
        _
        λ bytes hb. Gives-bind (ok_or ReceiptServiceError.prost_decode (c.decode bytes)) _ λ k hk.
          Gives-bind
            (map_err ReceiptServiceError.database
              (validate_confirmation w.memos c a info.txo.id k db))
            _
            λ valid h. Gives-ok _ (
              by_valid k (bytes, ok_or→some _ _ bytes hb, ok_or→some _ _ k hk) valid
                (map_err→ok ReceiptServiceError.database _ valid h))
    where
      by_valid :
          (k : Bytes)
          → IsNumber k
          → (valid : Bool) → validate_confirmation w.memos c a info.txo.id k db ≡ ok valid
          → (if valid then transaction_success else invalid_confirmation) ≡ transaction_success
          → (some info ≡ some info)
            × (j : Bytes) × IsNumber j
            × (validate_confirmation w.memos c a info.txo.id j db ≡ ok true)
      by_valid k is_k true h s = (refl, k, is_k, h)
      by_valid k is_k false h s = absurd (cc s)

  check_txo_lem :
      (a : RowId) (account : Account) (info : TxoInfo)
      → Gives
          (λ x. x.0 ≡ transaction_success → (x.1 ≡ some info) × IsConfirmed a account info)
          (check_txo c w a account r info db)
  unfolding check_txo
  check_txo_lem a account info =
      Gives-if (not_landed info.status) _ _ (λ _. Gives-ok _ (λ s. absurd (cc s)))
        λ landed.
          Gives-bind
            (ok_or ReceiptServiceError.prost_decode (c.decode_account_key account.account_key)) _
            λ key hk.
              Gives-bind (ok_or ReceiptServiceError.crypto_key (c.ristretto_public r.public_key)) _
                λ public hp.
                  by_amount landed key (ok_or→some _ _ key hk) public (ok_or→some _ _ public hp) _
                    refl
    where
      by_amount :
          not_landed info.status ≡ false
          → (key : Bytes) → c.decode_account_key account.account_key ≡ some key
          → (public : Bytes) → c.ristretto_public r.public_key ≡ some public
          → (o : Option Amount)
          → w.get_value r.amount
              (c.get_tx_out_shared_secret (c.account_view_private_key key) public)
            ≡ o
          → Gives
              (λ x. x.0 ≡ transaction_success → (x.1 ≡ some info) × IsConfirmed a account info)
              (check_amount c w a r info db o)
      by_amount landed key hk public hp none h = Gives-ok _ (λ s. absurd (cc s))
      by_amount landed key hk public hp (some v) h =
          Gives-if (value_of info.txo == v.value) _ _
            (λ e. record {
              at = λ x g s.
                  let (same, k, is_k, valid) = (check_confirmation_lem a info).at x g s in
                  (
                    same,
                    record {
                      landed = landed;
                      key = key;
                      key_of = hk;
                      public = public;
                      public_of = hp;
                      amount = v;
                      amount_of = h;
                      same_value = (==_iff (value_of info.txo) v.value).0 e;
                      confirmation = k;
                      confirmation_of = is_k;
                      valid = valid;
                    },
                  );
            })
            (λ _. Gives-ok _ (λ s. absurd (cc s)))

  received_lem :
      (address : RowId)
      → Gives
          (λ x. x.0 ≡ transaction_success → IsReceived address x.1)
          (check_receipt_status c w address r db)
  unfolding check_receipt_status select_by_public_key
  received_lem address =
      Gives-bind (map_err ReceiptServiceError.database (find_subaddress address db)) _
        λ assigned ha.
          Gives-bind (map_err ReceiptServiceError.database (find_account assigned.account_id db)) _
            λ account hc.
              by_txos assigned (map_err→ok _ _ assigned ha) account (map_err→ok _ _ account hc) _
                refl
    where
      by_txos :
          (assigned : AssignedSubaddress)
          → find_subaddress address db ≡ ok assigned
          → (account : Account) → find_account assigned.account_id db ≡ ok account
          → (ts : List Txo) → filter (has_public_key c (r.public_key ∷ [])) db.txos ≡ ts
          → Gives
              (λ x. x.0 ≡ transaction_success → IsReceived address x.1)
              (check_first c w assigned.account_id account r db ts)
      by_txos assigned ha account hc [] h = Gives-ok _ (λ s. absurd (cc s))
      by_txos assigned ha account hc (t ∷ ts) h =
          Gives-bind (map_err ReceiptServiceError.database (memo w.memos t db)) _ λ m _. record {
            at = λ x g s.
                let info : TxoInfo = record { txo = t; memo = m; status = status db t } in
                let (same, confirmed) = (check_txo_lem assigned.account_id account info).at x g s in
                record {
                  assigned = assigned;
                  address_of = ha;
                  account = account;
                  account_of = hc;
                  info = info;
                  answer = same;
                  found = filter_first (has_public_key c (r.public_key ∷ [])) db.txos ts t h;
                  status_of = refl;
                  confirmed = confirmed;
                };
          }

  -- A receipt whose check answers `TransactionSuccess`: the address is one of the wallet's; the first
  -- txo with the public key of the receipt is the one that is answered, with its status in the
  -- database, which is neither pending nor created; its value is the one that the receipt's amount
  -- decrypts to with the keys of the account of the address; and its confirmation number validates.
  pub check_receipt_status-IsReceived :
      (address : RowId) (o : Option TxoInfo)
      → check_receipt_status c w address r db ≡ ok (transaction_success, o)
      → IsReceived address o
  check_receipt_status-IsReceived address o h =
      (received_lem address).at (transaction_success, o) h refl
