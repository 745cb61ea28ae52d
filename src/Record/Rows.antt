-- ===== src/Record/Rows.antt =====
-- crates/midgard-record/src/events.rs: the rows that events decode to.
use midgard_rs.Common.{ℕ, Bool, Option, List}
use midgard_rs.Common.Int.{ℤ}
use midgard_rs.Common.Text.{Text}

-- The bits of an f64.
abbrev pub F64 : Type 0
F64 = ℕ

pub record Swap : Type 0 where
  pub tx : Text
  pub chain : Text
  pub from_addr : Text
  pub to_addr : Text
  pub from_asset : Text
  pub from_e8 : ℤ
  pub to_asset : Text
  pub to_e8 : ℤ
  pub memo : Text
  pub pool : Text
  pub to_e8_min : ℤ
  pub swap_slip_bp : ℤ
  pub liq_fee_e8 : ℤ
  pub liq_fee_in_rune_e8 : ℤ
  pub direction : ℤ
  pub streaming : Bool
  pub streaming_count : ℤ
  pub streaming_quantity : ℤ

pub record Stake : Type 0 where
  pub pool : Text
  pub asset_tx : Option Text
  pub asset_chain : Option Text
  pub asset_addr : Option Text
  pub asset_e8 : ℤ
  pub stake_units : ℤ
  pub rune_tx : Option Text
  pub rune_addr : Option Text
  pub rune_e8 : ℤ
  pub asset_in_rune_e8 : ℤ
  pub memo : Option Text

pub record Withdraw : Type 0 where
  pub tx : Text
  pub chain : Text
  pub from_addr : Text
  pub to_addr : Text
  pub asset : Text
  pub asset_e8 : ℤ
  pub emit_asset_e8 : ℤ
  pub emit_rune_e8 : ℤ
  pub memo : Text
  pub pool : Text
  pub stake_units : ℤ
  pub basis_points : ℤ
  pub asymmetry : F64
  pub imp_loss_protection_e8 : ℤ
  pub emit_asset_in_rune_e8 : ℤ

pub record PoolStatus : Type 0 where
  pub asset : Text
  pub status : Text

pub record Fee : Type 0 where
  pub tx : Text
  pub asset : Text
  pub asset_e8 : ℤ
  pub pool_deduct : ℤ

pub record Gas : Type 0 where
  pub asset : Text
  pub asset_e8 : ℤ
  pub rune_e8 : ℤ
  pub tx_count : ℤ

pub record Rewards : Type 0 where
  pub bond_e8 : ℤ
  pub per_pool : List (Text × ℤ)

pub record Outbound : Type 0 where
  pub tx : Option Text
  pub chain : Text
  pub from_addr : Text
  pub to_addr : Text
  pub asset : Text
  pub asset_e8 : ℤ
  pub memo : Text
  pub in_tx : Text

pub record Refund : Type 0 where
  pub tx : Text
  pub chain : Text
  pub from_addr : Text
  pub to_addr : Text
  pub asset : Text
  pub asset_e8 : ℤ
  pub asset_2nd : Option Text
  pub asset_2nd_e8 : ℤ
  pub memo : Option Text
  pub code : ℤ
  pub reason : Text

pub record Add : Type 0 where
  pub tx : Text
  pub chain : Text
  pub from_addr : Text
  pub to_addr : Text
  pub asset : Option Text
  pub asset_e8 : ℤ
  pub memo : Text
  pub rune_e8 : ℤ
  pub pool : Text

pub record Transfer : Type 0 where
  pub from_addr : Text
  pub to_addr : Text
  pub asset : Text
  pub amount_e8 : ℤ

pub record Bond : Type 0 where
  pub tx : Text
  pub chain : Option Text
  pub from_addr : Option Text
  pub to_addr : Option Text
  pub asset : Option Text
  pub asset_e8 : ℤ
  pub memo : Option Text
  pub bond_type : Text
  pub e8 : ℤ

pub record PendingLiquidity : Type 0 where
  pub pool : Text
  pub asset_tx : Option Text
  pub asset_chain : Option Text
  pub asset_addr : Option Text
  pub asset_e8 : ℤ
  pub rune_tx : Option Text
  pub rune_addr : Option Text
  pub rune_e8 : ℤ
  pub pending_type : Text

pub record Errata : Type 0 where
  pub in_tx : Text
  pub asset : Text
  pub asset_e8 : ℤ
  pub rune_e8 : ℤ

pub record SetMimir : Type 0 where
  pub key : Text
  pub value : Text

pub record MintBurn : Type 0 where
  pub asset : Text
  pub asset_e8 : ℤ
  pub supply : Text
  pub reason : Text

pub record PoolBalanceChange : Type 0 where
  pub asset : Text
  pub rune_amt : ℤ
  pub rune_add : Bool
  pub asset_amt : ℤ
  pub asset_add : Bool
  pub reason : Text

pub record Slash : Type 0 where
  pub pool : Text
  pub asset : Text
  pub asset_e8 : ℤ

pub record Switch : Type 0 where
  pub tx : Option Text
  pub from_addr : Text
  pub to_addr : Text
  pub burn_asset : Text
  pub mint_asset : Text
  pub burn_e8 : ℤ
  pub mint_e8 : ℤ

pub record VaultChange : Type 0 where
  pub add_asgard_addr : Text

pub record NodeStatus : Type 0 where
  pub node_addr : Text
  pub former : Text
  pub current : Text

pub data Recorded : Type 0 where
  swap : Swap → Recorded
  stake : Stake → Recorded
  withdraw : Withdraw → Recorded
  pool : PoolStatus → Recorded
  fee : Fee → Recorded
  gas : Gas → Recorded
  rewards : Rewards → Recorded
  outbound : Outbound → Recorded
  refund : Refund → Recorded
  add : Add → Recorded
  transfer : Transfer → Recorded
  bond : Bond → Recorded
  pending_liquidity : PendingLiquidity → Recorded
  errata : Errata → Recorded
  set_mimir : SetMimir → Recorded
  mint_burn : MintBurn → Recorded
  pool_balance_change : PoolBalanceChange → Recorded
  slash : Slash → Recorded
  switch : Switch → Recorded
  active_vault : VaultChange → Recorded
  inactive_vault : VaultChange → Recorded
  node_status : NodeStatus → Recorded
