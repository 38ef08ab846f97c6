-- ===== src/Service/Sign.antt =====
-- The signing of a proposal (full-service/src/service/models/tx_proposal.rs). The ring signer and the
-- hardware wallet are parameters.
use full_service.Prelude.{Option, List, [], ◌∷◌}
use full_service.Prelude.Tests.{if◌then◌else◌}
use full_service.Prelude.Result.{Result, ok, ok_or, map_err, ◌>>=◌}
use full_service.Db.Schema.{Bytes, Account}
use full_service.Db.Error.{WalletDbError}
use full_service.External.{Crypto}
use full_service.Builder.{WalletTransactionBuilderError}
use full_service.Builder.Build.{view_account_key}
use full_service.Builder.Select.{account_key}
use full_service.Logs.Proposal.{
  InputTxo, UnsignedInputTxo, TxPrefix, Tx, TxProposal, UnsignedTxProposal,
}

-- `TransactionServiceError`, by the cases that the modelled code raises.
pub data TransactionServiceError : Type 0 where
  database : WalletDbError → TransactionServiceError
  transaction_builder : WalletTransactionBuilderError → TransactionServiceError
  u64_parse missing_account_on_submit node_not_found no_peers_configured offline :
      TransactionServiceError
  b58 invalid_public_address invalid_amount default_fee_not_found_for_token :
      TransactionServiceError
  ledger_db ledger_service connection key ring_ct hardware_wallet_service : TransactionServiceError

abbrev pub ServiceResult : Type 0 → Type 0
ServiceResult A = Result TransactionServiceError A

-- `UnsignedTx::sign` with the `LocalRingSigner` of an account, and `hardware_wallet::sign_tx_proposal`.
pub record Signers : Type 0 where
  pub local_ring_signer : (account_key : Bytes) → TxPrefix → Option Tx
  pub hardware_wallet : UnsignedTxProposal → (view_account_key : Bytes) → Option TxProposal

module _ (c : Crypto) (signers : Signers) where
  unfoldable pub sign_inputs :
      (account_key : Bytes) → List UnsignedInputTxo → ServiceResult (List InputTxo)
  sign_inputs account [] = ok []
  sign_inputs account (t ∷ ts) = do
    public ← ok_or TransactionServiceError.key (c.ristretto_public t.tx_out.public_key)
    rest ← sign_inputs account ts
    ok (
        record {
          tx_out = t.tx_out;
          subaddress_index = t.subaddress_index;
          key_image = c.key_image_from (
              c.recover_onetime_private_key public (c.account_view_private_key account)
                (c.subaddress_spend_private account t.subaddress_index));
          amount = t.amount;
        }
        ∷ rest)

  unfoldable pub sign_with_local_signer :
      UnsignedTxProposal → (account_key : Bytes) → ServiceResult TxProposal
  unfolding sign_inputs
  sign_with_local_signer u account = do
    inputs ← sign_inputs account u.unsigned_input_txos
    tx ← ok_or ring_ct (signers.local_ring_signer account u.tx_prefix)
    ok (record {
      tx = tx;
      input_txos = inputs;
      payload_txos = u.payload_txos;
      change_txos = u.change_txos;
    })

  unfoldable pub sign : UnsignedTxProposal → Account → ServiceResult TxProposal
  unfolding sign_with_local_signer view_account_key account_key
  sign u account =
      if account.view_only
      then (map_err database (view_account_key c account) >>= λ view.
          ok_or hardware_wallet_service (signers.hardware_wallet u view))
      else (map_err database (account_key c account) >>= λ k. sign_with_local_signer u k)
