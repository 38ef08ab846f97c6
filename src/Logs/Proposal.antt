-- ===== src/Logs/Proposal.antt =====
-- The proposals of full-service/src/service/models/tx_proposal.rs.
use full_service.Prelude.{ℕ, List}
use full_service.Db.Schema.{Bytes}
use full_service.External.{TxOut, Amount}
use full_service.Txos.Write.{OutputTxo}

pub record InputTxo : Type 0 where
  pub tx_out : TxOut
  pub subaddress_index : ℕ
  pub key_image : Bytes
  pub amount : Amount

pub record UnsignedInputTxo : Type 0 where
  pub tx_out : TxOut
  pub subaddress_index : ℕ
  pub amount : Amount

-- `TxPrefix`, by the fields that the program reads.
pub record TxPrefix : Type 0 where
  pub fee : ℕ
  pub fee_token_id : ℕ
  pub tombstone_block : ℕ

-- `Tx`: its prefix, and its encoding.
pub record Tx : Type 0 where
  pub prefix : TxPrefix
  pub encoded : Bytes

pub record TxProposal : Type 0 where
  pub tx : Tx
  pub input_txos : List InputTxo
  pub payload_txos : List OutputTxo
  pub change_txos : List OutputTxo

pub record UnsignedTxProposal : Type 0 where
  pub tx_prefix : TxPrefix
  pub unsigned_input_txos : List UnsignedInputTxo
  pub payload_txos : List OutputTxo
  pub change_txos : List OutputTxo
