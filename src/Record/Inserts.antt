-- ===== src/Record/Inserts.antt =====
-- crates/midgard-record/src/writer.rs: the tables of write_events with their columns, in the order of
-- the statements.
use midgard_rs.Common.{Option, List, [], ◌∷◌, ◌++◌}
use midgard_rs.Common.Text.{Text, codes}
use midgard_rs.Record.Rows.{Recorded}
use midgard_rs.Record.Values.{
  Value, swap_values, stake_values, withdraw_values, pool_values, fee_values, gas_values,
  rewards_values, outbound_values, refund_values, add_values, transfer_values, bond_values,
  pending_liquidity_values, errata_values, set_mimir_values, mint_burn_values,
  pool_balance_change_values, slash_values, switch_values, active_vault_values,
  inactive_vault_values, node_status_values,
}

-- An `insert!` of the macro: what it binds for the events of its variant.
pub record Insert : Type 0 where
  pub table : Text
  pub columns : List Text
  pub values : Recorded → Option (List Value)

-- The two columns that every event table has.
abbrev pub columns : List Text → List Text
columns cols = cols ++ codes "event_id" ∷ codes "block_timestamp" ∷ []

-- The inserts in front of the rewards of single pools.
abbrev pub first_inserts : List Insert
first_inserts =
    record {
      table = codes "swap_events";
      columns = columns (
          codes "tx"
          ∷ codes "chain"
          ∷ codes "from_addr"
          ∷ codes "to_addr"
          ∷ codes "from_asset"
          ∷ codes "from_e8"
          ∷ codes "to_asset"
          ∷ codes "to_e8"
          ∷ codes "memo"
          ∷ codes "pool"
          ∷ codes "to_e8_min"
          ∷ codes "swap_slip_bp"
          ∷ codes "liq_fee_e8"
          ∷ codes "liq_fee_in_rune_e8"
          ∷ codes "_direction"
          ∷ codes "_streaming"
          ∷ codes "streaming_count"
          ∷ codes "streaming_quantity"
          ∷ []);
      values = swap_values;
    }
    ∷ record {
      table = codes "stake_events";
      columns = columns (
          codes "pool"
          ∷ codes "asset_tx"
          ∷ codes "asset_chain"
          ∷ codes "asset_addr"
          ∷ codes "asset_e8"
          ∷ codes "stake_units"
          ∷ codes "rune_tx"
          ∷ codes "rune_addr"
          ∷ codes "rune_e8"
          ∷ codes "_asset_in_rune_e8"
          ∷ codes "memo"
          ∷ []);
      values = stake_values;
    }
    ∷ record {
      table = codes "withdraw_events";
      columns = columns (
          codes "tx"
          ∷ codes "chain"
          ∷ codes "from_addr"
          ∷ codes "to_addr"
          ∷ codes "asset"
          ∷ codes "asset_e8"
          ∷ codes "emit_asset_e8"
          ∷ codes "emit_rune_e8"
          ∷ codes "memo"
          ∷ codes "pool"
          ∷ codes "stake_units"
          ∷ codes "basis_points"
          ∷ codes "asymmetry"
          ∷ codes "imp_loss_protection_e8"
          ∷ codes "_emit_asset_in_rune_e8"
          ∷ []);
      values = withdraw_values;
    }
    ∷ record {
      table = codes "pool_events";
      columns = columns (codes "asset" ∷ codes "status" ∷ []);
      values = pool_values;
    }
    ∷ record {
      table = codes "fee_events";
      columns = columns (codes "tx" ∷ codes "asset" ∷ codes "asset_e8" ∷ codes "pool_deduct" ∷ []);
      values = fee_values;
    }
    ∷ record {
      table = codes "gas_events";
      columns =
          columns (codes "asset" ∷ codes "asset_e8" ∷ codes "rune_e8" ∷ codes "tx_count" ∷ []);
      values = gas_values;
    }
    ∷ record {
      table = codes "rewards_events";
      columns = columns (codes "bond_e8" ∷ []);
      values = rewards_values;
    }
    ∷ []

-- The inserts behind them.
abbrev pub last_inserts : List Insert
last_inserts =
    record {
      table = codes "outbound_events";
      columns = columns (
          codes "tx"
          ∷ codes "chain"
          ∷ codes "from_addr"
          ∷ codes "to_addr"
          ∷ codes "asset"
          ∷ codes "asset_e8"
          ∷ codes "memo"
          ∷ codes "in_tx"
          ∷ []);
      values = outbound_values;
    }
    ∷ record {
      table = codes "refund_events";
      columns = columns (
          codes "tx"
          ∷ codes "chain"
          ∷ codes "from_addr"
          ∷ codes "to_addr"
          ∷ codes "asset"
          ∷ codes "asset_e8"
          ∷ codes "asset_2nd"
          ∷ codes "asset_2nd_e8"
          ∷ codes "memo"
          ∷ codes "code"
          ∷ codes "reason"
          ∷ []);
      values = refund_values;
    }
    ∷ record {
      table = codes "add_events";
      columns = columns (
          codes "tx"
          ∷ codes "chain"
          ∷ codes "from_addr"
          ∷ codes "to_addr"
          ∷ codes "asset"
          ∷ codes "asset_e8"
          ∷ codes "memo"
          ∷ codes "rune_e8"
          ∷ codes "pool"
          ∷ []);
      values = add_values;
    }
    ∷ record {
      table = codes "transfer_events";
      columns =
          columns (codes "from_addr" ∷ codes "to_addr" ∷ codes "asset" ∷ codes "amount_e8" ∷ []);
      values = transfer_values;
    }
    ∷ record {
      table = codes "bond_events";
      columns = columns (
          codes "tx"
          ∷ codes "chain"
          ∷ codes "from_addr"
          ∷ codes "to_addr"
          ∷ codes "asset"
          ∷ codes "asset_e8"
          ∷ codes "memo"
          ∷ codes "bond_type"
          ∷ codes "e8"
          ∷ []);
      values = bond_values;
    }
    ∷ record {
      table = codes "pending_liquidity_events";
      columns = columns (
          codes "pool"
          ∷ codes "asset_tx"
          ∷ codes "asset_chain"
          ∷ codes "asset_addr"
          ∷ codes "asset_e8"
          ∷ codes "rune_tx"
          ∷ codes "rune_addr"
          ∷ codes "rune_e8"
          ∷ codes "pending_type"
          ∷ []);
      values = pending_liquidity_values;
    }
    ∷ record {
      table = codes "errata_events";
      columns = columns (codes "in_tx" ∷ codes "asset" ∷ codes "asset_e8" ∷ codes "rune_e8" ∷ []);
      values = errata_values;
    }
    ∷ record {
      table = codes "set_mimir_events";
      columns = columns (codes "key" ∷ codes "value" ∷ []);
      values = set_mimir_values;
    }
    ∷ record {
      table = codes "mint_burn_events";
      columns = columns (codes "asset" ∷ codes "asset_e8" ∷ codes "supply" ∷ codes "reason" ∷ []);
      values = mint_burn_values;
    }
    ∷ record {
      table = codes "pool_balance_change_events";
      columns = columns (
          codes "asset"
          ∷ codes "rune_amt"
          ∷ codes "rune_add"
          ∷ codes "asset_amt"
          ∷ codes "asset_add"
          ∷ codes "reason"
          ∷ []);
      values = pool_balance_change_values;
    }
    ∷ record {
      table = codes "slash_events";
      columns = columns (codes "pool" ∷ codes "asset" ∷ codes "asset_e8" ∷ []);
      values = slash_values;
    }
    ∷ record {
      table = codes "switch_events";
      columns = columns (
          codes "tx"
          ∷ codes "from_addr"
          ∷ codes "to_addr"
          ∷ codes "burn_asset"
          ∷ codes "mint_asset"
          ∷ codes "burn_e8"
          ∷ codes "mint_e8"
          ∷ []);
      values = switch_values;
    }
    ∷ record {
      table = codes "active_vault_events";
      columns = columns (codes "add_asgard_addr" ∷ []);
      values = active_vault_values;
    }
    ∷ record {
      table = codes "inactive_vault_events";
      columns = columns (codes "add_asgard_addr" ∷ []);
      values = inactive_vault_values;
    }
    ∷ record {
      table = codes "update_node_account_status_events";
      columns = columns (codes "node_addr" ∷ codes "former" ∷ codes "current" ∷ []);
      values = node_status_values;
    }
    ∷ []
