-- ===== src/Record/Values.antt =====
-- crates/midgard-record/src/writer.rs: what an INSERT binds for an event of its table, in the order of
-- the columns.
use midgard_rs.Common.{Option, none, some, List, ℕ, Bool, [], ◌∷◌}
use midgard_rs.Common.Int.{ℤ}
use midgard_rs.Common.Text.{Text}
use midgard_rs.Record.Rows as Rows
use midgard_rs.Record.Rows.{F64, Recorded}

pub data Value : Type 0 where
  text : Text → Value
  optional : Option Text → Value
  int : ℤ → Value
  bool : Bool → Value
  float : F64 → Value
  bytes : List ℕ → Value

-- swap_events
abbrev pub swap_values : Recorded → Option (List Value)
swap_values (Rows.swap v) = some (
    text v.tx
    ∷ text v.chain
    ∷ text v.from_addr
    ∷ text v.to_addr
    ∷ text v.from_asset
    ∷ int v.from_e8
    ∷ text v.to_asset
    ∷ int v.to_e8
    ∷ text v.memo
    ∷ text v.pool
    ∷ int v.to_e8_min
    ∷ int v.swap_slip_bp
    ∷ int v.liq_fee_e8
    ∷ int v.liq_fee_in_rune_e8
    ∷ int v.direction
    ∷ bool v.streaming
    ∷ int v.streaming_count
    ∷ int v.streaming_quantity
    ∷ [])
swap_values r = none

-- stake_events
abbrev pub stake_values : Recorded → Option (List Value)
stake_values (Rows.stake v) = some (
    text v.pool
    ∷ optional v.asset_tx
    ∷ optional v.asset_chain
    ∷ optional v.asset_addr
    ∷ int v.asset_e8
    ∷ int v.stake_units
    ∷ optional v.rune_tx
    ∷ optional v.rune_addr
    ∷ int v.rune_e8
    ∷ int v.asset_in_rune_e8
    ∷ optional v.memo
    ∷ [])
stake_values r = none

-- withdraw_events
abbrev pub withdraw_values : Recorded → Option (List Value)
withdraw_values (Rows.withdraw v) = some (
    text v.tx
    ∷ text v.chain
    ∷ text v.from_addr
    ∷ text v.to_addr
    ∷ text v.asset
    ∷ int v.asset_e8
    ∷ int v.emit_asset_e8
    ∷ int v.emit_rune_e8
    ∷ text v.memo
    ∷ text v.pool
    ∷ int v.stake_units
    ∷ int v.basis_points
    ∷ float v.asymmetry
    ∷ int v.imp_loss_protection_e8
    ∷ int v.emit_asset_in_rune_e8
    ∷ [])
withdraw_values r = none

-- pool_events
abbrev pub pool_values : Recorded → Option (List Value)
pool_values (Rows.pool v) = some (text v.asset ∷ text v.status ∷ [])
pool_values r = none

-- fee_events
abbrev pub fee_values : Recorded → Option (List Value)
fee_values (Rows.fee v) = some (text v.tx ∷ text v.asset ∷ int v.asset_e8 ∷ int v.pool_deduct ∷ [])
fee_values r = none

-- gas_events
abbrev pub gas_values : Recorded → Option (List Value)
gas_values (Rows.gas v) = some (text v.asset ∷ int v.asset_e8 ∷ int v.rune_e8 ∷ int v.tx_count ∷ [])
gas_values r = none

-- rewards_events
abbrev pub rewards_values : Recorded → Option (List Value)
rewards_values (Rows.rewards v) = some (int v.bond_e8 ∷ [])
rewards_values r = none

-- outbound_events
abbrev pub outbound_values : Recorded → Option (List Value)
outbound_values (Rows.outbound v) = some (
    optional v.tx
    ∷ text v.chain
    ∷ text v.from_addr
    ∷ text v.to_addr
    ∷ text v.asset
    ∷ int v.asset_e8
    ∷ text v.memo
    ∷ text v.in_tx
    ∷ [])
outbound_values r = none

-- refund_events
abbrev pub refund_values : Recorded → Option (List Value)
refund_values (Rows.refund v) = some (
    text v.tx
    ∷ text v.chain
    ∷ text v.from_addr
    ∷ text v.to_addr
    ∷ text v.asset
    ∷ int v.asset_e8
    ∷ optional v.asset_2nd
    ∷ int v.asset_2nd_e8
    ∷ optional v.memo
    ∷ int v.code
    ∷ text v.reason
    ∷ [])
refund_values r = none

-- add_events
abbrev pub add_values : Recorded → Option (List Value)
add_values (Rows.add v) = some (
    text v.tx
    ∷ text v.chain
    ∷ text v.from_addr
    ∷ text v.to_addr
    ∷ optional v.asset
    ∷ int v.asset_e8
    ∷ text v.memo
    ∷ int v.rune_e8
    ∷ text v.pool
    ∷ [])
add_values r = none

-- transfer_events
abbrev pub transfer_values : Recorded → Option (List Value)
transfer_values (Rows.transfer v) =
    some (text v.from_addr ∷ text v.to_addr ∷ text v.asset ∷ int v.amount_e8 ∷ [])
transfer_values r = none

-- bond_events
abbrev pub bond_values : Recorded → Option (List Value)
bond_values (Rows.bond v) = some (
    text v.tx
    ∷ optional v.chain
    ∷ optional v.from_addr
    ∷ optional v.to_addr
    ∷ optional v.asset
    ∷ int v.asset_e8
    ∷ optional v.memo
    ∷ text v.bond_type
    ∷ int v.e8
    ∷ [])
bond_values r = none

-- pending_liquidity_events
abbrev pub pending_liquidity_values : Recorded → Option (List Value)
pending_liquidity_values (Rows.pending_liquidity v) = some (
    text v.pool
    ∷ optional v.asset_tx
    ∷ optional v.asset_chain
    ∷ optional v.asset_addr
    ∷ int v.asset_e8
    ∷ optional v.rune_tx
    ∷ optional v.rune_addr
    ∷ int v.rune_e8
    ∷ text v.pending_type
    ∷ [])
pending_liquidity_values r = none

-- errata_events
abbrev pub errata_values : Recorded → Option (List Value)
errata_values (Rows.errata v) =
    some (text v.in_tx ∷ text v.asset ∷ int v.asset_e8 ∷ int v.rune_e8 ∷ [])
errata_values r = none

-- set_mimir_events
abbrev pub set_mimir_values : Recorded → Option (List Value)
set_mimir_values (Rows.set_mimir v) = some (text v.key ∷ text v.value ∷ [])
set_mimir_values r = none

-- mint_burn_events
abbrev pub mint_burn_values : Recorded → Option (List Value)
mint_burn_values (Rows.mint_burn v) =
    some (text v.asset ∷ int v.asset_e8 ∷ text v.supply ∷ text v.reason ∷ [])
mint_burn_values r = none

-- pool_balance_change_events
abbrev pub pool_balance_change_values : Recorded → Option (List Value)
pool_balance_change_values (Rows.pool_balance_change v) = some (
    text v.asset
    ∷ int v.rune_amt
    ∷ bool v.rune_add
    ∷ int v.asset_amt
    ∷ bool v.asset_add
    ∷ text v.reason
    ∷ [])
pool_balance_change_values r = none

-- slash_events
abbrev pub slash_values : Recorded → Option (List Value)
slash_values (Rows.slash v) = some (text v.pool ∷ text v.asset ∷ int v.asset_e8 ∷ [])
slash_values r = none

-- switch_events
abbrev pub switch_values : Recorded → Option (List Value)
switch_values (Rows.switch v) = some (
    optional v.tx
    ∷ text v.from_addr
    ∷ text v.to_addr
    ∷ text v.burn_asset
    ∷ text v.mint_asset
    ∷ int v.burn_e8
    ∷ int v.mint_e8
    ∷ [])
switch_values r = none

-- active_vault_events
abbrev pub active_vault_values : Recorded → Option (List Value)
active_vault_values (Rows.active_vault v) = some (text v.add_asgard_addr ∷ [])
active_vault_values r = none

-- inactive_vault_events
abbrev pub inactive_vault_values : Recorded → Option (List Value)
inactive_vault_values (Rows.inactive_vault v) = some (text v.add_asgard_addr ∷ [])
inactive_vault_values r = none

-- update_node_account_status_events
abbrev pub node_status_values : Recorded → Option (List Value)
node_status_values (Rows.node_status v) =
    some (text v.node_addr ∷ text v.former ∷ text v.current ∷ [])
node_status_values r = none
